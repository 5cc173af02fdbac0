-- ===== src/Probe/Status/Outcomes.antt =====
-- When a channel is healthy, and which statuses and error types there are.
use tok_hub.Prelude.{
  String, ◌≡◌, refl, Bool, true, false, not, ◌&&◌, ◌||◌, Option, ◌==◌, arith, ne_other,
  if◌then◌else◌,
}
use tok_hub.Probe.Status.{
  LayerSummary, StatusDecision, is_set, l3_decision, base_decision, or_else,
  synthesize_status_with_l3,
}

unfoldable pub is_status : String → StatusDecision → Bool
is_status name d = d.status == name

is_status-if :
    (name : String) (b : Bool) (x y : StatusDecision)
    → is_status name (if b then x else y) ≡ (if b then is_status name x else is_status name y)
is_status-if name true x y = refl
is_status-if name false x y = refl

-- The generation probe has a result that decides by itself.
abbrev pub l3_speaks : LayerSummary → Bool
l3_speaks l3 =
    is_set l3.status
    && (l3.status == "auth_error"
        || l3.status == "ok"
        || l3.status == "warn"
        || l3.status == "down"
        || l3.error_type == "auth_error"
        || l3.error_type == "rate_limited"
        || l3.error_type == "slow_response")

-- Both of the lower layers are well.
abbrev pub base_healthy : LayerSummary → LayerSummary → Bool
base_healthy l1 l2 = l1.status == "ok" && l2.status == "ok" && not (l2.error_type == "auth_error")

-- The generation answered, and the lower layers say nothing against it.
abbrev pub l3_healthy : LayerSummary → LayerSummary → LayerSummary → Bool
l3_healthy l1 l2 l3 =
    l3.status == "ok"
    && not (l3.error_type == "auth_error")
    && not (l1.status == "down")
    && not (is_set l2.status && not (l2.status == "ok"))

-- The ladder of base_decision over its tests; what excludes what is given.
base_ladder :
    (down1 unset auth2 down2 ok1 ok2 : Bool)
    → (down1 ≡ true → ok1 ≡ false)
    → (unset ≡ true → (ok1 && ok2) ≡ false)
    → (down2 ≡ true → ok2 ≡ false)
    → (err2 status2 : Bool) → auth2 ≡ (status2 || err2)
    → (status2 ≡ true → ok2 ≡ false)
    → (if down1
        then (if ok2 then false else false)
        else if unset
        then false
        else if auth2
        then false
        else if down2
        then false
        else if ok1 && ok2
        then true
        else false)
      ≡ (ok1 && ok2 && not err2)
base_ladder down1 unset auth2 down2 ok1 ok2 a b c err2 status2 d e = ground arith

unset_not_ok :
    (a b c d ok1 ok2 : Bool)
    → (a ≡ true → ok1 ≡ false)
    → (b ≡ true → ok1 ≡ false)
    → (c ≡ true → ok2 ≡ false)
    → (d ≡ true → ok2 ≡ false)
    → (a || b || c || d) ≡ true
    → (ok1 && ok2) ≡ false
unset_not_ok a b c d ok1 ok2 p q r s h = ground arith

base_decision-healthy :
    (l1 l2 : LayerSummary) → is_status "healthy" (base_decision l1 l2) ≡ base_healthy l1 l2
unfolding base_decision is_status
base_decision-healthy l1 l2 = simp is_status-if (
    base_ladder (l1.status == "down") _ _ (l2.status == "down") (l1.status == "ok")
      (l2.status == "ok") (ne_other l1.status "down" "ok" refl)
      (unset_not_ok _ _ _ _ _ _ (ne_other l1.status "" "ok" refl)
        (ne_other l1.status "na" "ok" refl) (ne_other l2.status "" "ok" refl)
        (ne_other l2.status "na" "ok" refl))
      (ne_other l2.status "down" "ok" refl) _ _ refl (ne_other l2.status "auth_error" "ok" refl))

or_else-if :
    (b : Bool) (x y : Option StatusDecision) (d : StatusDecision)
    → or_else (if b then x else y) d ≡ (if b then or_else x d else or_else y d)
or_else-if true x y d = refl
or_else-if false x y d = refl

l3_ladder :
    (set auth3 ok3 warn3 down3 erra errr errs down1 bad2 gone2 base : Bool)
    → (auth3 ≡ true → ok3 ≡ false)
    → (warn3 ≡ true → ok3 ≡ false)
    → (down3 ≡ true → ok3 ≡ false)
    → (if set
        then (if auth3 || erra
            then false
            else if ok3
            then (if down1 then false else if bad2 then false else true)
            else if warn3 || errr || errs
            then false
            else if down3
            then (if gone2 then false else false)
            else base)
        else base)
      ≡ (if set && (auth3 || ok3 || warn3 || down3 || erra || errr || errs)
          then ok3 && not erra && not down1 && not bad2
          else base)
l3_ladder set auth3 ok3 warn3 down3 erra errr errs down1 bad2 gone2 base a b c = ground arith

-- A channel is healthy exactly when its generation probe answered and neither connectivity is down
-- nor a set result of the model list is other than ok; where the generation probe has nothing to
-- say, when connectivity and the model list are ok without an authorization error.
pub synthesize-healthy :
    (l1 l2 l3 : LayerSummary)
    → is_status "healthy" (synthesize_status_with_l3 l1 l2 l3)
      ≡ (if l3_speaks l3 then l3_healthy l1 l2 l3 else base_healthy l1 l2)
unfolding synthesize_status_with_l3 l3_decision
synthesize-healthy l1 l2 l3 =
    simp (or_else-if, is_status-if, base_decision-healthy)
      (unfold is_status in
        l3_ladder (is_set l3.status) (l3.status == "auth_error") (l3.status == "ok")
          (l3.status == "warn") (l3.status == "down") (l3.error_type == "auth_error")
          (l3.error_type == "rate_limited") (l3.error_type == "slow_response") (l1.status == "down")
          (is_set l2.status && not (l2.status == "ok"))
          (l2.error_type == "model_not_found" || l2.error_type == "model_unavailable")
          (base_healthy l1 l2) (ne_other l3.status "auth_error" "ok" refl)
          (ne_other l3.status "warn" "ok" refl) (ne_other l3.status "down" "ok" refl))
