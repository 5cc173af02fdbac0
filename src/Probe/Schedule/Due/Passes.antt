-- ===== src/Probe/Schedule/Due/Passes.antt =====
-- The two passes of a tick: over the layers that never ran, then over the layers that are due.
use native.Mathlib.Nat.{mod-lt, add-mod-mod, add-mod_right, mod-eq_of_lt}
use tok_hub.Prelude.{
  ℕ, zero, suc, ◌+◌, ◌-◌, ◌%◌, ◌<◌, String, ◌≡◌, refl, ap, ◌∙◌, ◌⊎◌, inl, inr, false, some, List,
  [], ◌∷◌, arith, length, get_elem?,
}
use tok_hub.Probe.Schedule.{
  ProbeScheduleTarget, ScheduledProbeTask, Tick, probe_layer_missing, scan, append_missing,
  missing_layer, start_cursor,
}
use tok_hub.Probe.Schedule.Search.{LayerOf, Idle, at, Hit, Miss, scan_all}
use tok_hub.Probe.Schedule.Due.Layers.{missing_layer-none}

abbrev pub idle_tick : ℕ → Tick
idle_tick cursor = record { tasks = []; next_cursor = cursor }

-- No target misses the layer.
abbrev pub NoneMisses : List ProbeScheduleTarget → String → Type 0
NoneMisses targets layer =
    (j : ℕ) (t : ProbeScheduleTarget)
    → get_elem? targets j ≡ some t
    → probe_layer_missing t layer ≡ false

-- The pass over the missing layers ends at the first layer that a target misses.
abbrev pub MissingPass : List ProbeScheduleTarget → ℕ → List String → Tick → Type 0
MissingPass targets cursor [] after = after ≡ idle_tick cursor
MissingPass targets cursor (layer ∷ layers) after =
    Hit targets (missing_layer layer) cursor 0 (length targets) after
    ⊎ (NoneMisses targets layer × MissingPass targets cursor layers after)

pub start_cursor_lt :
    (targets : List ProbeScheduleTarget) (cursor : ℕ)
    → 0 < length targets
    → start_cursor targets cursor < length targets
start_cursor_lt targets cursor h = ground arith

pub get_elem?-some-lt :
    (targets : List ProbeScheduleTarget) (j : ℕ) (t : ProbeScheduleTarget)
    → get_elem? targets j ≡ some t
    → j < length targets
get_elem?-some-lt [] j t e = cc
get_elem?-some-lt (x ∷ xs) zero t e = omega arith
get_elem?-some-lt (x ∷ xs) (suc j) t e = omega (arith, get_elem?-some-lt xs j t e)

-- Every index is a number of rounds ahead of the cursor.
pub ahead :
    (targets : List ProbeScheduleTarget) (cursor j : ℕ)
    → cursor < length targets
    → j < length targets
    → (d : ℕ) × (d < length targets) × (at targets cursor d ≡ j)
ahead targets cursor j c<n j<n =
    let n = length targets in
    (
      (j + n - cursor) % n,
      mod-lt (j + n - cursor) (omega arith),
      add-mod-mod cursor (j + n - cursor) n
          ∙ ap (λ x. x % n) (omega arith)
          ∙ add-mod_right j n
          ∙ mod-eq_of_lt j<n,
    )

-- A pass that finds nothing finds nothing anywhere.
pub Miss-everywhere :
    (targets : List ProbeScheduleTarget) (layer_of : LayerOf) (cursor : ℕ) (before after : Tick)
    → cursor < length targets
    → Miss targets layer_of cursor 0 (length targets) before after
    → (j : ℕ) → Idle targets layer_of j
Miss-everywhere targets layer_of cursor before after c<n miss j t there =
    let (d, d<n, e) = ahead targets cursor j c<n (get_elem?-some-lt targets j t there) in
    miss.idle d (omega arith) d<n t (rw e there)

append_missing-full :
    (targets : List ProbeScheduleTarget) (cursor : ℕ) (layer : String) (layers : List String)
    (tick : Tick) (task : ScheduledProbeTask)
    → (scan targets (missing_layer layer) cursor 0 (length targets) tick).tasks ≡ task ∷ []
    → append_missing targets cursor (layer ∷ layers) tick
      ≡ scan targets (missing_layer layer) cursor 0 (length targets) tick
unfolding append_missing scan
append_missing-full targets cursor layer layers tick task e = rw (append_missing, e) refl

append_missing-next :
    (targets : List ProbeScheduleTarget) (cursor : ℕ) (layer : String) (layers : List String)
    → scan targets (missing_layer layer) cursor 0 (length targets) (idle_tick cursor)
      ≡ idle_tick cursor
    → append_missing targets cursor (layer ∷ layers) (idle_tick cursor)
      ≡ append_missing targets cursor layers (idle_tick cursor)
unfolding append_missing
append_missing-next targets cursor layer layers e =
    rw (append_missing, e) (ap (append_missing targets cursor layers) e)

pub missing_pass :
    (targets : List ProbeScheduleTarget) (cursor : ℕ) (layers : List String)
    → cursor < length targets
    → MissingPass targets cursor layers (append_missing targets cursor layers (idle_tick cursor))
missing_pass targets cursor [] c<n = (unfold append_missing in refl)
missing_pass targets cursor (layer ∷ layers) c<n =
    elim (scan_all targets (missing_layer layer) cursor cursor) [
      | inl hit ↦
          rw (append_missing-full targets cursor layer layers (idle_tick cursor) _ hit.found.tasks)
            (inl hit)
      | inr miss ↦ rw (append_missing-next targets cursor layer layers miss.unchanged) (
          inr (
            (λ j t there.
                missing_layer-none layer t
                  (Miss-everywhere targets (missing_layer layer) cursor _ _ c<n miss j t there)),
            missing_pass targets cursor layers c<n,
          ))
    ]
