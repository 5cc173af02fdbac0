-- ===== src/Probe/Schedule/Due/Layers.antt =====
-- The layer that a pass of the scheduler picks for one target.
use tok_hub.Prelude.{
  String, ◌≡◌, refl, inl, inr, true, false, none, some, List, [], ◌∷◌, arith, Bool-cases, All,
  Occurs,
}
use tok_hub.Clock.{Time}
use tok_hub.Probe.Schedule.{
  ProbeScheduleTarget, probe_layer_missing, probe_layer_due, first_due, missing_layer,
}

-- A layer of the target that never ran is due.
pub probe_layer_missing-due :
    (t : ProbeScheduleTarget) (layer : String) (now : Time)
    → probe_layer_missing t layer ≡ true
    → probe_layer_due t layer now ≡ true
unfolding probe_layer_due
probe_layer_missing-due t layer now missing = rw (probe_layer_due, missing) refl

pub missing_layer-none :
    (layer : String) (t : ProbeScheduleTarget)
    → missing_layer layer t ≡ none
    → probe_layer_missing t layer ≡ false
missing_layer-none layer t e = ground arith

pub missing_layer-some :
    (layer layer' : String) (t : ProbeScheduleTarget)
    → missing_layer layer t ≡ some layer'
    → (layer' ≡ layer) × (probe_layer_missing t layer' ≡ true)
missing_layer-some layer layer' t e = ground arith

pub missing_layer_hit :
    (layer : String) (t : ProbeScheduleTarget)
    → probe_layer_missing t layer ≡ true
    → missing_layer layer t ≡ some layer
missing_layer_hit layer t missing = rw missing refl

pub first_due-none :
    (t : ProbeScheduleTarget) (now : Time) (layers : List String)
    → first_due t now layers ≡ none
    → All (λ layer. probe_layer_due t layer now ≡ false) layers
unfolding first_due
first_due-none t now [] e = tt
first_due-none t now (layer ∷ layers) e = elim (Bool-cases (probe_layer_due t layer now)) [
  | inl due ↦ ground arith
  | inr not_due ↦ (not_due, first_due-none t now layers (ground arith))
]

pub first_due-some :
    (t : ProbeScheduleTarget) (now : Time) (layers : List String) (layer : String)
    → first_due t now layers ≡ some layer
    → Occurs layer layers × (probe_layer_due t layer now ≡ true)
unfolding first_due
first_due-some t now [] layer e = cc
first_due-some t now (l ∷ layers) layer e = elim (Bool-cases (probe_layer_due t l now)) [
  | inl is_due ↦ (let same : layer ≡ l = ground arith in (inl same, rw same is_due))
  | inr not_due ↦
      (let (later, is_due) = first_due-some t now layers layer (ground arith) in
        (inr later, is_due))
]
