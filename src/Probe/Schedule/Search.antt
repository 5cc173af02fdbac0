-- ===== src/Probe/Schedule/Search.antt =====
-- The loop over the targets finds the first one behind the cursor that has a layer to run.
use native.Mathlib.Decide.{dec_lt}
use tok_hub.Prelude.{
  ℕ, zero, suc, ◌+◌, ◌%◌, ◌≤◌, ◌<◌, String, ◌≡◌, refl, subst, ◌⊎◌, inl, inr, Option, none, some,
  List, [], ◌∷◌, arith, length, get_elem?, Option-cases,
}
use tok_hub.Probe.Schedule.{ProbeScheduleTarget, ScheduledProbeTask, Tick, task_of, visit, scan}

abbrev pub LayerOf : Type 0
LayerOf = ProbeScheduleTarget → Option String

-- No target at the index has a layer to run.
abbrev pub Idle : List ProbeScheduleTarget → LayerOf → ℕ → Type 0
Idle targets layer_of i =
    (target : ProbeScheduleTarget) → get_elem? targets i ≡ some target → layer_of target ≡ none

-- The index that the loop visits in a round.
abbrev pub at : List ProbeScheduleTarget → ℕ → ℕ → ℕ
at targets cursor round = (cursor + round) % length targets

-- A tick that found its target in a round.
pub record Found (targets : List ProbeScheduleTarget) (layer_of : LayerOf) (cursor : ℕ) (round : ℕ)
    (tick : Tick) : Type 0 where
  pub target : ProbeScheduleTarget
  pub layer : String
  pub is_there : get_elem? targets (at targets cursor round) ≡ some target
  pub has_layer : layer_of target ≡ some layer
  pub tasks : tick.tasks ≡ task_of target layer ∷ []
  pub next_cursor : tick.next_cursor ≡ (at targets cursor round + 1) % length targets

-- What a loop over the rounds from `first` up to `last` does to a tick without tasks.
pub record Hit (targets : List ProbeScheduleTarget) (layer_of : LayerOf) (cursor first last : ℕ)
    (tick : Tick) : Type 0 where
  pub round : ℕ
  pub from_first : first ≤ round
  pub to_last : round < last
  pub found : Found targets layer_of cursor round tick
  pub idle_before : (i : ℕ) → first ≤ i → i < round → Idle targets layer_of (at targets cursor i)

pub record Miss (targets : List ProbeScheduleTarget) (layer_of : LayerOf) (cursor first last : ℕ)
    (before after : Tick) : Type 0 where
  pub unchanged : after ≡ before
  pub idle : (i : ℕ) → first ≤ i → i < last → Idle targets layer_of (at targets cursor i)

-- A visit of an idle index leaves the tick alone; a visit of another appends the target's task.
visit-Idle :
    (targets : List ProbeScheduleTarget) (layer_of : LayerOf) (i : ℕ) (tick : Tick)
    → Idle targets layer_of i
    → visit targets layer_of i tick ≡ tick
unfolding visit
visit-Idle targets layer_of i tick idle = elim (Option-cases (get_elem? targets i)) [
  | inl gone ↦ rw (gone, visit) refl
  | inr (target, there) ↦ rw (there, idle target there, visit) refl
]

visit-busy :
    (targets : List ProbeScheduleTarget) (layer_of : LayerOf) (i : ℕ) (next : ℕ)
    (target : ProbeScheduleTarget) (layer : String)
    → get_elem? targets i ≡ some target
    → layer_of target ≡ some layer
    → visit targets layer_of i (record { tasks = []; next_cursor = next })
      ≡ record { tasks = task_of target layer ∷ []; next_cursor = (i + 1) % length targets }
unfolding visit
visit-busy targets layer_of i next target layer there has = rw (there, has, visit) refl

module _ (targets : List ProbeScheduleTarget) (layer_of : LayerOf) (cursor : ℕ) where
  scan-full :
      (rounds checked : ℕ) (task : ScheduledProbeTask) (next : ℕ)
      → scan targets layer_of cursor checked rounds
          (record { tasks = task ∷ []; next_cursor = next })
        ≡ record { tasks = task ∷ []; next_cursor = next }
  unfolding scan
  scan-full zero checked task next = refl
  scan-full (suc rounds) checked task next = refl

  -- Idleness of the first round and of the later ones.
  Idle-from :
      (first last : ℕ)
      → Idle targets layer_of (at targets cursor first)
      → ((i : ℕ) → first + 1 ≤ i → i < last → Idle targets layer_of (at targets cursor i))
      → (i : ℕ) → first ≤ i
      → i < last
      → Idle targets layer_of (at targets cursor i)
  Idle-from first last here later i lo hi = elim (dec_lt first i) [
    | yes above ↦ later i (omega arith) hi
    | no not_above ↦ (let e : i ≡ first = omega arith in rw e here)
  ]

  abbrev pub Outcome : ℕ → ℕ → ℕ → Tick → Type 0
  Outcome first last next after =
      Hit targets layer_of cursor first last after
      ⊎ Miss targets layer_of cursor first last (record { tasks = []; next_cursor = next }) after

  skip :
      (first last last' next : ℕ) (after : Tick)
      → last' ≡ last
      → Idle targets layer_of (at targets cursor first)
      → Outcome (first + 1) last' next after
      → Outcome first last next after
  skip first last last' next after e here (inl hit) = inl (record {
    round = hit.round;
    from_first = omega (arith, hit.from_first);
    to_last = omega (arith, hit.to_last);
    found = hit.found;
    idle_before = Idle-from first hit.round here hit.idle_before;
  })
  skip first last last' next after e here (inr miss) = inr (record {
    unchanged = miss.unchanged;
    idle = Idle-from first last here (λ i lo hi. miss.idle i lo (omega arith));
  })

  scan-Outcome :
      (rounds first next : ℕ)
      → Outcome first
          (first + rounds)
          next
          (scan targets layer_of cursor first rounds (record { tasks = []; next_cursor = next }))
  unfolding scan
  scan-Outcome zero first next =
      inr (record { unchanged = refl; idle = λ i lo hi. absurd (omega arith) })
  scan-Outcome (suc rounds) first next =
      let resume : Idle targets layer_of (at targets cursor first)
          → Outcome first (first + suc rounds) next (
              scan targets layer_of cursor first (suc rounds)
                (record { tasks = []; next_cursor = next })) =
        λ idle.
          rw (scan, visit-Idle targets layer_of (at targets cursor first) _ idle)
            (skip first (first + suc rounds) (first + 1 + rounds) next _ (omega arith) idle
              (scan-Outcome rounds (first + 1) next)) in
      elim (Option-cases (get_elem? targets (at targets cursor first))) [
        | inl gone ↦ resume (λ t there. cc)
        | inr (target, there) ↦ elim (Option-cases (layer_of target)) [
          | inl none_here ↦ resume (λ t there'. cc)
          | inr (layer, has) ↦
              rw
                (
                  scan,
                  visit-busy targets layer_of (at targets cursor first) next target layer there has,
                  scan-full rounds (first + 1) (task_of target layer)
                      ((at targets cursor first + 1) % length targets),
                )
                (inl (record {
                  round = first;
                  from_first = omega arith;
                  to_last = omega arith;
                  found = record {
                    target = target;
                    layer = layer;
                    is_there = there;
                    has_layer = has;
                    tasks = refl;
                    next_cursor = refl;
                  };
                  idle_before = λ i lo hi. absurd (omega arith);
                }))
        ]
      ]

  -- The whole loop of a pass.
  pub scan_all :
      (next : ℕ)
      → Outcome 0 (length targets) next (
          scan targets layer_of cursor 0
            (length targets)
            (record { tasks = []; next_cursor = next }))
  scan_all next =
      let e : 0 + length targets ≡ length targets = omega arith in
      subst
        (λ n. Outcome 0 n next (
          scan targets layer_of cursor 0 (length targets)
            (record { tasks = []; next_cursor = next })))
        e (scan-Outcome (length targets) 0 next)
