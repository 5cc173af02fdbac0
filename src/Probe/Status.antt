-- ===== src/Probe/Status.antt =====
-- internal/prober/status.go: one status for a channel from the summaries of its three layers.
pub mod Outcomes
pub mod Names
use tok_hub.Prelude.{
  ℕ, String, Bool, true, false, not, ◌&&◌, ◌||◌, Option, none, some, List, [], ◌∷◌, ◌==◌,
  if◌then◌else◌,
}

pub record LayerSummary : Type 0 where
  pub status : String
  pub latency_ms : ℕ
  pub error_type : String

pub record StatusDecision : Type 0 where
  pub status : String
  pub error_type : String

abbrev pub decision : String → String → StatusDecision
decision status error_type = record { status = status; error_type = error_type }

unfoldable pub first_non_empty : List String → String
first_non_empty [] = ""
first_non_empty (value ∷ values) = if not (value == "") then value else first_non_empty values

unfoldable pub models_probe_error_type : LayerSummary → String
models_probe_error_type l2 =
    if l2.status == "auth_error" || l2.error_type == "auth_error"
    then "models_auth_error"
    else if l2.error_type == "model_not_found" || l2.error_type == "model_unavailable"
    then l2.error_type
    else if l2.error_type == "timeout"
    then "models_timeout"
    else if l2.error_type == "rate_limited"
    then "models_rate_limited"
    else if l2.error_type == "l2_probe_skipped" || l2.error_type == "models_probe_skipped"
    then "models_probe_skipped"
    else "models_unavailable"

abbrev pub is_set : String → Bool
is_set status = not (status == "") && not (status == "na")

-- A generation that answered.
unfoldable pub answered_decision : LayerSummary → LayerSummary → StatusDecision
unfolding first_non_empty models_probe_error_type
answered_decision l1 l2 =
    if l1.status == "down"
    then decision "degraded" (first_non_empty (l1.error_type ∷ "connectivity_down" ∷ []))
    else if is_set l2.status && not (l2.status == "ok")
    then decision "degraded" (models_probe_error_type l2)
    else decision "healthy" ""

-- A generation that failed.
unfoldable pub failed_decision : LayerSummary → LayerSummary → StatusDecision
unfolding first_non_empty
failed_decision l2 l3 =
    if l2.error_type == "model_not_found" || l2.error_type == "model_unavailable"
    then decision "functional_down" l2.error_type
    else decision "functional_down" (first_non_empty (l3.error_type ∷ "empty_content" ∷ []))

-- The part that a generation probe decides; `none` where the code goes on below it.
unfoldable pub l3_decision : LayerSummary → LayerSummary → LayerSummary → Option StatusDecision
unfolding first_non_empty answered_decision failed_decision
l3_decision l1 l2 l3 =
    if is_set l3.status
    then (if l3.status == "auth_error" || l3.error_type == "auth_error"
        then some (decision "auth_error" "auth_error")
        else if l3.status == "ok"
        then some (answered_decision l1 l2)
        else if l3.status == "warn"
            || l3.error_type == "rate_limited"
            || l3.error_type == "slow_response"
        then some (decision "degraded" (first_non_empty (l3.error_type ∷ "slow_response" ∷ [])))
        else if l3.status == "down"
        then some (failed_decision l2 l3)
        else none)
    else none

-- The part that looks at connectivity and the model list.
unfoldable pub base_decision : LayerSummary → LayerSummary → StatusDecision
unfolding first_non_empty
base_decision l1 l2 =
    if l1.status == "down"
    then (if l2.status == "ok"
        then decision "degraded" (first_non_empty (l1.error_type ∷ "connectivity_down" ∷ []))
        else decision "connectivity_down"
            (first_non_empty (l1.error_type ∷ "connectivity_down" ∷ [])))
    else if l1.status == "" || l1.status == "na" || l2.status == "" || l2.status == "na"
    then decision "unknown" "unknown"
    else if l2.status == "auth_error" || l2.error_type == "auth_error"
    then decision "auth_error" "auth_error"
    else if l2.status == "down"
    then decision "connectivity_down" (first_non_empty (l2.error_type ∷ "connectivity_down" ∷ []))
    else if l1.status == "ok" && l2.status == "ok"
    then decision "healthy" ""
    else decision "unknown" (first_non_empty (l1.error_type ∷ l2.error_type ∷ "unknown" ∷ []))

abbrev pub or_else : Option StatusDecision → StatusDecision → StatusDecision
or_else none d = d
or_else (some e) d = e

unfoldable pub synthesize_status_with_l3 :
    LayerSummary → LayerSummary → LayerSummary → StatusDecision
synthesize_status_with_l3 l1 l2 l3 = or_else (l3_decision l1 l2 l3) (base_decision l1 l2)

unfoldable pub synthesize_status : LayerSummary → LayerSummary → StatusDecision
synthesize_status l1 l2 =
    synthesize_status_with_l3 l1 l2 (record { status = "na"; latency_ms = 0; error_type = "" })
