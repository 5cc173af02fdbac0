-- ===== src/Probe/Status/Names.antt =====
-- Which statuses and error types a decision has.
use tok_hub.Prelude.{
  String, ◌≡◌, refl, Bool, true, false, not, ◌&&◌, ◌||◌, Option, List, [], ◌∷◌, ◌==◌, eq_iff, arith,
  if◌then◌else◌, Bool-cases, inl, inr,
}
use tok_hub.Probe.Status.{
  LayerSummary, StatusDecision, decision, first_non_empty, models_probe_error_type,
  answered_decision, failed_decision, l3_decision, base_decision, or_else,
  synthesize_status_with_l3,
}

-- The statuses of a channel in trouble.
abbrev pub is_trouble : String → Bool
is_trouble s =
    s == "degraded"
    || s == "auth_error"
    || s == "functional_down"
    || s == "connectivity_down"
    || s == "unknown"

-- Healthy without an error, or in trouble with one.
pub record IsWellNamed (d : StatusDecision) : Type 0 where
  pub named :
      (if d.status == "healthy"
        then d.error_type == ""
        else is_trouble d.status && not (d.error_type == ""))
      ≡ true

-- Every branch of a ladder is well named.
IsWellNamed-if :
    (b : Bool) {x y : StatusDecision}
    → (b ≡ true → IsWellNamed x)
    → (b ≡ false → IsWellNamed y)
    → IsWellNamed (if b then x else y)
IsWellNamed-if true t f = t refl
IsWellNamed-if false t f = f refl

abbrev IsTrouble : String → Type 0
IsTrouble s = (is_trouble s ≡ true) × ((s == "healthy") ≡ false)

-- A text that is not empty.
record IsFilled (s : String) : Type 0 where
  filled : (s == "") ≡ false

IsFilled-if :
    (b : Bool) {x y : String}
    → (b ≡ true → IsFilled x)
    → (b ≡ false → IsFilled y)
    → IsFilled (if b then x else y)
IsFilled-if true t f = t refl
IsFilled-if false t f = f refl

IsFilled-literal : (s : String) → (s == "") ≡ false → IsFilled s
IsFilled-literal s h = record { filled = h }

IsFilled-first :
    (a : String) (rest : List String)
    → IsFilled (first_non_empty rest)
    → IsFilled (first_non_empty (a ∷ rest))
unfolding first_non_empty
IsFilled-first a rest h = elim (Bool-cases (a == "")) [
  | inl e ↦ rw e h
  | inr e ↦ rw e (record { filled = e })
]

or_first : (a b : Bool) → (a || b) ≡ true → a ≡ false → b ≡ true
or_first a b h n = ground arith

-- A model error of the model list is passed on.
IsFilled-model_error :
    (e : String) → (e == "model_not_found" || e == "model_unavailable") ≡ true → IsFilled e
IsFilled-model_error e h = elim (Bool-cases (e == "model_not_found")) [
  | inl p ↦ rw ((eq_iff e "model_not_found").0 p) (record { filled = refl })
  | inr n ↦ rw ((eq_iff e "model_unavailable").0 (or_first _ _ h n)) (record { filled = refl })
]

models_probe_error_type-IsFilled : (l2 : LayerSummary) → IsFilled (models_probe_error_type l2)
unfolding models_probe_error_type
models_probe_error_type-IsFilled l2 =
    search (IsFilled-if, IsFilled-model_error, IsFilled-literal) depth 9

IsFilled-last : (a : String) → IsFilled a → IsFilled (first_non_empty (a ∷ []))
unfolding first_non_empty
IsFilled-last a h = rw h.filled h

IsWellNamed-trouble :
    (status error : String)
    → IsTrouble status
    → IsFilled error
    → IsWellNamed (decision status error)
IsWellNamed-trouble status error t e = record { named = rw (t.1, t.0, e.filled) }

healthy-IsWellNamed : IsWellNamed (decision "healthy" "")
healthy-IsWellNamed = record { named = refl }

ruleset named_rules = (
  IsWellNamed-if, IsWellNamed-trouble, healthy-IsWellNamed, IsFilled-first, IsFilled-last,
  IsFilled-literal,
)

base-IsWellNamed : (l1 l2 : LayerSummary) → IsWellNamed (base_decision l1 l2)
unfolding base_decision
base-IsWellNamed l1 l2 = search named_rules depth 12

answered-IsWellNamed : (l1 l2 : LayerSummary) → IsWellNamed (answered_decision l1 l2)
unfolding answered_decision
answered-IsWellNamed l1 l2 = search (named_rules, models_probe_error_type-IsFilled) depth 9

failed-IsWellNamed : (l2 l3 : LayerSummary) → IsWellNamed (failed_decision l2 l3)
unfolding failed_decision
failed-IsWellNamed l2 l3 = search (named_rules, IsFilled-model_error) depth 9

or_else-if :
    (b : Bool) (x y : Option StatusDecision) (d : StatusDecision)
    → or_else (if b then x else y) d ≡ (if b then or_else x d else or_else y d)
or_else-if true x y d = refl
or_else-if false x y d = refl

-- Whatever the summaries, the decision is healthy without an error, or has one of the five other
-- statuses and an error type.
pub synthesize-IsWellNamed :
    (l1 l2 l3 : LayerSummary) → IsWellNamed (synthesize_status_with_l3 l1 l2 l3)
unfolding synthesize_status_with_l3 l3_decision
synthesize-IsWellNamed l1 l2 l3 =
    simp or_else-if
      (search (named_rules, answered-IsWellNamed, failed-IsWellNamed, base-IsWellNamed) depth 9)
