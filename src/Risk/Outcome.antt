-- ===== src/Risk/Outcome.antt =====
-- What changes a risk row beside a reservation: RecordAIClientResult, SetAIClientConnectionPaused
-- and ConfirmAIClientIdentity of internal/store/client_connectors.go.
use tok_hub.Prelude.{
  ◌+◌, ◌-◌, ◌*◌, String, Bool, true, false, not, ◌&&◌, ◌||◌, Option, none, some, ◌==◌, ltb, leb,
  if◌then◌else◌,
}
use tok_hub.Prelude.Text.{trim_space, to_lower}
use tok_hub.Clock.{Time, Duration, minute, hour, day}
use tok_hub.Risk.{
  RiskState, normal, cooldown, reauth_required, security_locked, policy_locked, manual_recovery,
  paused, AiClientRisk, is_normal, is_cooldown, normalize,
}

-- The groups of error codes that RecordAIClientResult tells apart.
pub data ErrorClass : Type 0 where
  login forbidden identity_changed policy rate_limited other : ErrorClass

unfoldable pub classify : String → ErrorClass
classify code =
    if code == "unauthorized" || code == "login_required" || code == "401"
    then login
    else if code == "forbidden" || code == "security_challenge" || code == "403"
    then forbidden
    else if code == "identity_changed"
    then identity_changed
    else if code == "tool_event" || code == "tool_call" || code == "policy_violation"
    then policy
    else if code == "rate_limited" || code == "429"
    then rate_limited
    else other

abbrev cool_until : AiClientRisk → Time → AiClientRisk
cool_until s until = record s { state = cooldown; cooldown_until = some until }

abbrev lock : AiClientRisk → RiskState → AiClientRisk
lock s state = record s { state = state; cooldown_until = none }

-- The window of rate-limit events is read once more before an event is counted.
rate_limit_window : AiClientRisk → Time → AiClientRisk
rate_limit_window s now =
    if leb day (now - s.rate_limit_window_started_at)
    then record s { rate_limit_window_started_at = now; rate_limit_events = 0 }
    else s

rate_limited_once_more : AiClientRisk → Duration → Time → AiClientRisk
rate_limited_once_more s retry_after now =
    let t = record s { rate_limit_events = s.rate_limit_events + 1 } in
    if leb 2 t.rate_limit_events
    then lock t manual_recovery
    else cool_until t (now + (if ltb retry_after hour then hour else retry_after))

-- The `switch` on the error code.
unfoldable pub fail_with : ErrorClass → AiClientRisk → Duration → Time → AiClientRisk
unfolding rate_limit_window rate_limited_once_more
fail_with login s retry_after now = lock s reauth_required
fail_with forbidden s retry_after now = lock s security_locked
fail_with identity_changed s retry_after now = record s {
  state = security_locked;
  cooldown_until = none;
  identity_changes = s.identity_changes + 1;
}
fail_with policy s retry_after now = lock s policy_locked
fail_with rate_limited s retry_after now =
    rate_limited_once_more (rate_limit_window s now) retry_after now
fail_with other s retry_after now = cool_until s (now + 5 * minute)

unfoldable pub succeed : AiClientRisk → Time → AiClientRisk
succeed s now =
    let t = record s { consecutive_failures = 0; last_success_at = some now } in
    if is_cooldown t.state then record t { state = normal; cooldown_until = none } else t

abbrev pub failed : AiClientRisk → String → Time → AiClientRisk
failed s code now = record s {
  consecutive_failures = s.consecutive_failures + 1;
  last_error_at = some now;
  last_error_code = code;
}

-- RecordAIClientResult. A negative `retryAfter` of the source is raised to an hour, as 0 is.
unfoldable pub record_result : AiClientRisk → Bool → String → Duration → Time → AiClientRisk
record_result s ok error_code retry_after now =
    let t = normalize s now in
    let code = to_lower (trim_space error_code) in
    let u =
      if ok then succeed t now else fail_with (classify code) (failed t code now) retry_after now in
    record u { updated_at = now }

-- The two guards of SetAIClientConnectionPaused.
abbrev pub may_set_paused : RiskState → Bool → Bool
may_set_paused normal to = true
may_set_paused paused to = true
may_set_paused manual_recovery to = not to
may_set_paused _ to = false

abbrev pub resumable : RiskState → Bool
resumable paused = true
resumable manual_recovery = true
resumable _ = false

abbrev resume : AiClientRisk → AiClientRisk
resume s = record s {
  state = normal;
  consecutive_failures = 0;
  last_error_code = "";
  rate_limit_events = 0;
}

-- SetAIClientConnectionPaused on the row; `none` is ErrAIClientRiskTransitionDenied.
unfoldable pub set_paused : AiClientRisk → Bool → Time → Option AiClientRisk
set_paused s to now =
    if may_set_paused s.state to
    then some
        (record (if to && is_normal s.state
          then record s { state = paused }
          else if not to && resumable s.state
          then resume s
          else s) { updated_at = now })
    else none

-- A renewed login waits for the owner to resume.
abbrev pub after_login : RiskState → RiskState
after_login reauth_required = paused
after_login state = state

-- The change that ConfirmAIClientIdentity makes where the subject is the stored one.
abbrev confirmed : AiClientRisk → String → AiClientRisk
confirmed s assurance = record s {
  identity_assurance = assurance;
  consecutive_failures = 0;
  last_error_code = "";
  state = after_login s.state;
}

-- ConfirmAIClientIdentity on the row, with whether the subject matched.
unfoldable pub confirm_identity : AiClientRisk → String → String → Time → AiClientRisk × Bool
confirm_identity s subject assurance now =
    let t = normalize s now in
    let given = trim_space subject in
    let matched = not (given == "") && t.account_subject == given in
    let u =
      if matched
      then confirmed t (if assurance == "account" then "account" else "device")
      else record t {
        state = security_locked;
        cooldown_until = none;
        identity_changes = t.identity_changes + 1;
        last_error_at = some now;
        last_error_code = "identity_changed";
      } in
    (record u { updated_at = now }, matched)
