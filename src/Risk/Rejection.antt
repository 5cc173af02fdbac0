-- ===== src/Risk/Rejection.antt =====
-- What the gateway answers to a refused reservation, `officialClientRiskRejection` of
-- internal/api/gateway_handlers.go, and to a failed task, `officialClientResultError`.
use tok_hub.Prelude.{
  ℕ, ◌+◌, ◌<◌, leb, String, ◌≡◌, refl, ◌⊎◌, ◌↔◌, true, false, ◌||◌, Option, none, some, arith, ◌==◌,
  is_some, if◌then◌else◌, Bool-cases, inl, inr,
}
use tok_hub.Prelude.Text.{trim_space}
use tok_hub.Clock.{Time, hour, day}
use tok_hub.Risk.{
  AiClientRisk, RiskState, normal, cooldown, is_normal, is_cooldown, elapsed, too_soon,
  next_request_at, max_per_hour, max_per_day, minimum_interval, normalize, decide, reserve,
  state_name,
}
use tok_hub.Risk.Invariant.{IsSound, normalize-IsSound}

pub record Rejection : Type 0 where
  pub status : ℕ
  pub code : String
  pub message : String

abbrev reject : ℕ → String → String → Rejection
reject status code message = record { status = status; code = code; message = message }

unfoldable pub official_client_risk_rejection : String → Rejection
official_client_risk_rejection reason =
    if reason == "minimum_interval"
    then reject 429 "official_client_minimum_interval"
        "Official client requests require a 15-second interval"
    else if reason == "hourly_limit"
    then reject 429 "official_client_hourly_limit"
        "Official client connection reached its hourly safety limit"
    else if reason == "daily_limit"
    then reject 429 "official_client_daily_limit"
        "Official client connection reached its daily safety limit"
    else if reason == "cooldown"
    then reject 429 "official_client_cooling_down"
        "Official client connection is in a safety cooldown"
    else if reason == "reauth_required"
    then reject 409 "official_client_reauth_required"
        "Official client login must be renewed and manually restored"
    else if reason == "security_locked" || reason == "policy_locked" || reason == "manual_recovery"
    then reject 423 "official_client_locked"
        "Official client connection is locked for manual review"
    else if reason == "paused"
    then reject 423 "official_client_paused" "Official client connection is paused"
    else reject 503 "official_client_risk_rejected"
        "Official client connection cannot execute this request"

abbrev non_empty : String → String → String
non_empty value fallback = if value == "" then fallback else value

-- The `switch` of officialClientResultError. The code is compared as it comes, where
-- RecordAIClientResult trims and lowers it first.
unfoldable pub result_error_with : String → String → Rejection
result_error_with error_code message =
    if error_code == "unauthorized" || error_code == "login_required" || error_code == "401"
    then reject 409 "official_client_reauth_required" message
    else if error_code == "forbidden"
        || error_code == "security_challenge"
        || error_code == "403"
        || error_code == "identity_changed"
    then reject 423 "official_client_security_locked" message
    else if error_code == "rate_limited" || error_code == "429"
    then reject 429 "official_client_rate_limited" message
    else if error_code == "tool_event"
        || error_code == "tool_call"
        || error_code == "policy_violation"
    then reject 423 "official_client_policy_locked" message
    else if error_code == "timeout" || error_code == "cancelled"
    then reject 504 "official_client_timeout" message
    else if error_code == "unsupported_capability"
    then reject 422 "unsupported_capability" message
    else reject 502 (non_empty error_code "official_client_failed") message

unfoldable pub official_client_result_error : String → String → Rejection
unfolding result_error_with
official_client_result_error error_code error_message =
    let trimmed = trim_space error_message in
    result_error_with error_code (if trimmed == "" then "Official client task failed" else trimmed)

-- A retry time that lies ahead.
abbrev pub Ahead : Time → Option Time → Type 0
Ahead now none = Unit
Ahead now (some at) = now < at

-- A row as normalization leaves it: its windows are current, and its cooldown has not ended.
record Current (s : AiClientRisk) (now : Time) : Type 0 where
  hour_current : now < s.hour_window_started_at + hour
  day_current : now < s.day_window_started_at + day
  cooling : is_cooldown s.state ≡ true → elapsed s.cooldown_until now ≡ false

normalize-Current : (s : AiClientRisk) (now : Time) → Current (normalize s now) now
unfolding normalize
normalize-Current s now = ground arith

-- A refusal is answered 429, 409 or 423, 429 exactly when it names a retry time, and that time
-- lies ahead.
abbrev pub Answers : Time → String → Option Time → Type 0
Answers now reason retry_at =
    let answer = (official_client_risk_rejection reason).status in
    ((answer ≡ 429) ⊎ (answer ≡ 409) ⊎ (answer ≡ 423))
    × ((answer ≡ 429) ↔ (is_some retry_at ≡ true))
    × Ahead now retry_at

-- The refusals that name a time.
Answers-later :
    (now at : Time) (reason : String)
    → (official_client_risk_rejection reason).status ≡ 429
    → now < at
    → Answers now reason (some at)
Answers-later now at reason h ahead = (inl h, (λ _. refl, λ _. h), ahead)

-- The states that refuse: a cooldown has an end, the others have none.
Answers-state :
    (state : RiskState) (retry_at : Option Time) (now : Time)
    → is_normal state ≡ false
    → is_cooldown state ≡ is_some retry_at
    → Ahead now retry_at
    → Answers now (state_name state) retry_at
unfolding official_client_risk_rejection
Answers-state normal retry_at now n c a = cc
Answers-state cooldown none now n c a = cc
Answers-state cooldown (some at) now n c a = Answers-later now at "cooldown" refl a
Answers-state _ none now n c a = ground arith
Answers-state _ (some at) now n c a = cc

Answers-interval :
    (last : Option Time) (now : Time)
    → too_soon last now ≡ true
    → Answers now "minimum_interval" (next_request_at last)
unfolding official_client_risk_rejection
Answers-interval none now soon = cc
Answers-interval (some last) now soon =
    Answers-later now (last + minimum_interval) "minimum_interval" refl (ground arith)

decide_retry :
    (s : AiClientRisk) (now : Time)
    → IsSound s
    → Current s now
    → (decide s now).allowed ≡ false
    → Answers now (decide s now).reason (decide s now).retry_at
unfolding decide official_client_risk_rejection
decide_retry s now sound current refused = elim (Bool-cases (is_normal s.state)) [
  | inr held ↦ rw held (
      Answers-state s.state s.cooldown_until now held sound.cools (ground (arith, current.cooling)))
  | inl usable ↦ rw usable (elim (Bool-cases (too_soon s.last_request_at now)) [
    | inl soon ↦ rw soon (Answers-interval s.last_request_at now soon)
    | inr waited ↦ rw waited (elim (Bool-cases (leb max_per_hour s.requests_hour)) [
      | inl full ↦ rw full (Answers-later now _ "hourly_limit" refl current.hour_current)
      | inr room ↦ rw room (elim (Bool-cases (leb max_per_day s.requests_day)) [
        | inl full ↦ rw full (Answers-later now _ "daily_limit" refl current.day_current)
        | inr room_today ↦ ground arith
      ])
    ])
  ])
]

module _ (s : AiClientRisk) (now : Time) (sound : IsSound s) where
  -- A refused reservation of a sound row is answered 429, 409 or 423. The answer is 429 exactly
  -- when the decision names a time to retry at, and that time lies ahead.
  pub rejection_retry :
      (reserve s now).allowed ≡ false → Answers now (reserve s now).reason (reserve s now).retry_at
  rejection_retry refused =
      unfold reserve in
      decide_retry (normalize s now) now (normalize-IsSound s now sound) (normalize-Current s now)
        refused
