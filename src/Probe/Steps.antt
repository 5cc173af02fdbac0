-- ===== src/Probe/Steps.antt =====
-- The steps of a probe and their summary, internal/prober/executor.go and runner.go. A step's
-- metadata is free-form and read by none of these functions, so it is left out. An error of Go is
-- modelled by what the code asks of it.
pub mod Summary
use tok_hub.Prelude.{
  ℕ, ◌+◌, ◌/◌, String, Bool, true, false, not, ◌&&◌, ◌||◌, Option, none, some, List, [], ◌∷◌, ◌++◌,
  ◌==◌, eqb, leb, ltb, is_some, if◌then◌else◌,
}
use tok_hub.Clock.{Duration}
use tok_hub.Probe.Status.{LayerSummary}

pub record StepResult : Type 0 where
  pub step : String
  pub status : String
  pub latency_ms : ℕ
  pub http_status : ℕ
  pub error_type : String

abbrev pub summary : String → ℕ → String → LayerSummary
summary status latency_ms error_type = record {
  status = status;
  latency_ms = latency_ms;
  error_type = error_type;
}

-- The loop of Summarize, with its variables.
unfoldable pub summarize_from : ℕ → String → Bool → List StepResult → LayerSummary
summarize_from total first_error saw_ok [] =
    if saw_ok then summary "ok" total first_error else summary "na" total first_error
summarize_from total first_error saw_ok (r ∷ rest) =
    let total' = total + r.latency_ms in
    let first' =
      if first_error == "" && not (r.error_type == "") then r.error_type else first_error in
    let later = summarize_from total' first' (if r.status == "ok" then true else saw_ok) rest in
    if r.status == "auth_error"
    then summary "auth_error" total' "auth_error"
    else if r.status == "down"
    then summary "down" total' r.error_type
    else if r.status == "warn"
    then summary "warn" total' r.error_type
    else later

unfoldable pub summarize : List StepResult → LayerSummary
unfolding summarize_from
summarize [] = summary "na" 0 ""
summarize (r ∷ rest) = summarize_from 0 "" false (r ∷ rest)

-- `step` of executor.go; the duration is cut to milliseconds.
unfoldable pub make_step : String → Bool → Duration → String → ℕ → StepResult
make_step name ok duration error_type status_code = record {
  step = name;
  status = (if ok then "ok" else "down");
  latency_ms = duration / 1_000_000;
  http_status = status_code;
  error_type = (if ok then "" else error_type);
}

abbrev na_step : String → StepResult
na_step name = record {
  step = name;
  status = "na";
  latency_ms = 0;
  http_status = 0;
  error_type = "";
}

unfoldable pub mark_remaining : List StepResult → List String → List StepResult
mark_remaining results [] = results
mark_remaining results (name ∷ names) = mark_remaining (results ++ na_step name ∷ []) names

-- What the code asks of an error: errors.As(*net.DNSError), errors.Is(DeadlineExceeded).
pub record GoError : Type 0 where
  pub is_dns : Bool
  pub is_deadline : Bool

unfoldable pub err_type : Option GoError → String → String
err_type none fallback = ""
err_type (some e) fallback =
    if e.is_dns then "dns_failed" else if e.is_deadline then "timeout" else fallback

unfoldable pub http_error_type : Option GoError → ℕ → String
http_error_type (some e) status_code = if e.is_deadline then "timeout" else "http_failed"
http_error_type none status_code =
    if eqb status_code 401 || eqb status_code 403
    then "auth_error"
    else if eqb status_code 429
    then "rate_limited"
    else if leb 500 status_code
    then "upstream_error"
    else if leb 400 status_code
    then "http_error"
    else ""

-- `body_says_gone` is upstreamBodySuggestsModelUnavailable(body).
unfoldable pub probe_upstream_error_type : Option GoError → String → ℕ → Bool → String
unfolding http_error_type
probe_upstream_error_type err upstream_error status_code body_says_gone =
    if not (is_some err) && leb 200 status_code && ltb status_code 300
    then ""
    else if eqb status_code 401 || eqb status_code 403 || upstream_error == "upstream_auth_error"
    then "auth_error"
    else if eqb status_code 429 || upstream_error == "upstream_rate_limited"
    then "rate_limited"
    else if body_says_gone
    then "model_unavailable"
    else if upstream_error == "upstream_timeout"
    then "timeout"
    else if upstream_error == "upstream_unreachable"
    then "http_failed"
    else if not (upstream_error == "")
    then upstream_error
    else http_error_type err status_code

-- The status of a run, in persistProbeOutcome.
unfoldable pub run_status : LayerSummary → String
run_status s = if s.status == "down" || s.status == "auth_error" then "failed" else "success"

unfoldable pub credential_failure_steps : String → List StepResult
credential_failure_steps layer =
    record {
      step = (if layer == "l2" then "models" else if layer == "l3" then "generate" else "probe");
      status = "auth_error";
      latency_ms = 0;
      http_status = 0;
      error_type = "auth_error";
    }
    ∷ []

unfoldable pub is_supported_probe_layer : String → Bool
is_supported_probe_layer layer = layer == "l1" || layer == "l2" || layer == "l3"

unfoldable pub probe_layer_needs_credential : String → Bool
probe_layer_needs_credential layer = layer == "l2" || layer == "l3"
