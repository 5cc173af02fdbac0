-- ===== src/Probe/Schedule/Due/Fairness.antt =====
-- A target whose first layer never ran is not passed over for longer than one round of the ticks.
use native.Mathlib.Nat.{mod-lt, mod-add-mod}
use tok_hub.Prelude.{
  ℕ, zero, suc, ◌+◌, ◌-◌, ◌%◌, ◌≤◌, ◌<◌, ◌≡◌, ap, sym, subst, ◌∙◌, ◌⊎◌, inl, inr, true, some, List,
  [], ◌∷◌, arith, length, get_elem?,
}
use native.Mathlib.Decide.{dec_lt}
use tok_hub.Clock.{Time}
use tok_hub.Probe.Schedule.{
  ProbeScheduleTarget, Tick, task_of, probe_layers, probe_layer_missing,
  append_missing_scheduled_probe_tasks, missing_layer, start_cursor, scheduled_probe_tasks,
}
use tok_hub.Probe.Schedule.Search.{at, Hit}
use tok_hub.Probe.Schedule.Due.Layers.{missing_layer-some, missing_layer_hit}
use tok_hub.Probe.Schedule.Due.Passes.{start_cursor_lt, ahead, missing_pass}
use tok_hub.Probe.Schedule.Due.Ticks.{scheduled-full}

-- Walking on from the next cursor reaches what was further ahead.
at-next :
    (targets : List ProbeScheduleTarget) (cursor round d : ℕ)
    → round < d
    → at targets ((at targets cursor round + 1) % length targets) (d - suc round)
      ≡ at targets cursor d
at-next targets cursor round d h =
    let n = length targets in
    let r = (cursor + round) % n in
    let left : r + 1 + (d - suc round) ≡ r + (1 + (d - suc round)) = omega arith in
    let right : cursor + round + (1 + (d - suc round)) ≡ cursor + d = omega arith in
    mod-add-mod (r + 1) n (d - suc round)
    ∙ ap (λ x. x % n) left
    ∙ mod-add-mod (cursor + round) n (1 + (d - suc round))
    ∙ ap (λ x. x % n) right

-- A tick serves the first target that misses the first layer, and stops no further than there.
FirstLayerStep : List ProbeScheduleTarget → ℕ → ProbeScheduleTarget → ℕ → Tick → Type 0
FirstLayerStep targets j u d tick =
    (tick.tasks ≡ task_of u "l1" ∷ [])
    ⊎ ((d' : ℕ) × (d' < d)
        × (tick.next_cursor < length targets)
        × (at targets tick.next_cursor d' ≡ j))

-- The loop over the first layer does the same.
Hit-step :
    (targets : List ProbeScheduleTarget) (cursor j d : ℕ) (u : ProbeScheduleTarget) (tick : Tick)
    → get_elem? targets j ≡ some u
    → probe_layer_missing u "l1" ≡ true
    → at targets cursor d ≡ j
    → Hit targets (missing_layer "l1") cursor 0 (length targets) tick
    → FirstLayerStep targets j u d tick
unfolding FirstLayerStep
Hit-step targets cursor j d u tick there misses e hit = elim (dec_lt hit.round d) [
  | yes before ↦
      (let n>0 : 0 < length targets = omega (arith, hit.to_last) in
        inr (
          d - suc hit.round,
          omega arith,
          rw hit.found.next_cursor (mod-lt (at targets cursor hit.round + 1) n>0),
          rw hit.found.next_cursor (at-next targets cursor hit.round d before ∙ e),
        ))
  | no not_before ↦ elim (dec_lt d hit.round) [
    | yes behind ↦
        (let gone = hit.idle_before d (omega arith) behind u (rw e there) in
          let has = missing_layer_hit "l1" u misses in absurd cc)
    | no not_behind ↦
        (let same : hit.round ≡ d = omega arith in
          let index : at targets cursor hit.round ≡ j = ap (at targets cursor) same ∙ e in
          let is_there = hit.found.is_there in
          let there' : get_elem? targets (at targets cursor hit.round) ≡ some u = rw index there in
          let target : hit.found.target ≡ u = cc in
          let (layer, _) =
            missing_layer-some "l1" hit.found.layer hit.found.target hit.found.has_layer in
          inl (rw⁻¹ (target, layer) hit.found.tasks))
  ]
]

first_layer_step :
    (targets : List ProbeScheduleTarget) (now : Time) (cursor j d : ℕ) (u : ProbeScheduleTarget)
    → get_elem? targets j ≡ some u
    → probe_layer_missing u "l1" ≡ true
    → at targets (start_cursor targets cursor) d ≡ j
    → FirstLayerStep targets j u d (scheduled_probe_tasks targets now cursor)
unfolding append_missing_scheduled_probe_tasks
first_layer_step [] now cursor j d u there misses e = cc
first_layer_step (t ∷ ts) now cursor j d u there misses e =
    let c = start_cursor (t ∷ ts) cursor in
    elim (missing_pass (t ∷ ts) c probe_layers (start_cursor_lt (t ∷ ts) cursor (omega arith))) [
      | inl hit ↦
          rw (scheduled-full t ts now cursor _ hit.found.tasks)
            (Hit-step (t ∷ ts) c j d u _ there misses e hit)
      | inr (none_misses, later) ↦ (let no = none_misses j u there in absurd cc)
    ]

start_cursor-lt :
    (targets : List ProbeScheduleTarget) (cursor : ℕ)
    → cursor < length targets
    → start_cursor targets cursor ≡ cursor
start_cursor-lt targets cursor h = ground arith

-- A sequence of ticks: the targets that each reads, and its time.
module _ (targets : ℕ → List ProbeScheduleTarget) (now : ℕ → Time) (cursor : ℕ) where
  -- The cursor that the loop of the scheduler hands to a tick.
  unfoldable pub cursor_at : ℕ → ℕ
  cursor_at zero = cursor
  cursor_at (suc k) = (scheduled_probe_tasks (targets k) (now k) (cursor_at k)).next_cursor

  unfoldable pub tick_at : ℕ → Tick
  tick_at k = scheduled_probe_tasks (targets k) (now k) (cursor_at k)

  module _ (n j : ℕ) (u : ℕ → ProbeScheduleTarget)
      (same_length : (k : ℕ) → k < n → length (targets k) ≡ n)
      (there : (k : ℕ) → k < n → get_elem? (targets k) j ≡ some (u k))
      (misses : (k : ℕ) → k < n → probe_layer_missing (u k) "l1" ≡ true) where
    served_from :
        (m k d : ℕ)
        → d < m
        → k + m ≤ n
        → (start_cursor (targets k) (cursor_at k) + d) % n ≡ j
        → (i : ℕ) × (i < n) × ((tick_at i).tasks ≡ task_of (u i) "l1" ∷ [])
    unfolding tick_at FirstLayerStep
    served_from zero k d d<m k+m e = absurd (omega arith)
    served_from (suc m) k d d<m k+m e =
        let k<n : k < n = omega arith in
        elim (first_layer_step (targets k) (now k) (cursor_at k) j d (u k) (there k k<n)
          (misses k k<n)
          (subst (λ x. (start_cursor (targets k) (cursor_at k) + d) % x ≡ j)
            (sym (same_length k k<n)) e)) [
              | inl served ↦ (k, k<n, served)
              | inr (d', closer, in_range, e') ↦
                  (let same = start_cursor-lt (targets (suc k)) (cursor_at (suc k)) (
                      unfold cursor_at in
                      omega
                        (arith, in_range, same_length k k<n, same_length (suc k) (omega arith))) in
                    served_from m (suc k) d' (omega arith) (omega arith)
                      (rw same (unfold cursor_at in rw⁻¹ (same_length k k<n) e')))
            ]

    -- Over n ticks that read n targets each, a target that stands at one index and misses the first
    -- layer at each of them is served for that layer by one of them, wherever the cursor starts.
    pub served_within_a_round :
        j < n → (k : ℕ) × (k < n) × ((tick_at k).tasks ≡ task_of (u k) "l1" ∷ [])
    unfolding cursor_at
    served_within_a_round j<n =
        let n>0 : 0 < n = omega arith in
        let len = same_length 0 n>0 in
        let (d, d<n, e) =
          ahead (targets 0) (start_cursor (targets 0) cursor) j
            (start_cursor_lt (targets 0) cursor (omega arith)) (omega arith) in
        served_from n 0 d (omega arith) (omega arith)
          (subst (λ x. (start_cursor (targets 0) cursor + d) % x ≡ j) len e)
