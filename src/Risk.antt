-- ===== src/Risk.antt =====
-- The risk record of an official-client connection, internal/store/client_connectors.go. Each
-- method is split in two: here the change of the loaded row, in Risk/Table the transaction around
-- it. `state` has the values that the table's check constraint admits.
pub mod Outcome
pub mod Table
pub mod Pause
pub mod Stored
pub mod Trace
pub mod Invariant
pub mod Admission
pub mod Quota
pub mod Spacing
pub mod Locks
pub mod Rejection
pub mod Errors
use tok_hub.Prelude.{
  ℕ, ◌+◌, ◌-◌, ◌≤◌, String, ◌≡◌, Bool, true, false, not, ◌&&◌, ◌||◌, Option, none, some, List, [],
  ◌∷◌, ◌==◌, ltb, leb, if◌then◌else◌,
}
use tok_hub.Prelude.Text.{trim_space, to_lower}
use tok_hub.Clock.{Time, Duration, second, minute, hour, day, is_zero}

pub data RiskState : Type 0 where
  normal cooldown reauth_required security_locked policy_locked manual_recovery paused : RiskState

pub RiskState-discrete : Discrete RiskState
RiskState-discrete = hlevel

-- The text of the column.
abbrev pub state_name : RiskState → String
state_name normal = "normal"
state_name cooldown = "cooldown"
state_name reauth_required = "reauth_required"
state_name security_locked = "security_locked"
state_name policy_locked = "policy_locked"
state_name manual_recovery = "manual_recovery"
state_name paused = "paused"

abbrev pub is_normal : RiskState → Bool
is_normal normal = true
is_normal _ = false

abbrev pub is_cooldown : RiskState → Bool
is_cooldown cooldown = true
is_cooldown _ = false

pub record AiClientRisk : Type 0 where
  pub connection_id : String
  pub provider : String
  pub identity_assurance : String
  pub state : RiskState
  pub cooldown_until : Option Time
  pub requests_hour : ℕ
  pub requests_day : ℕ
  pub rate_limit_events : ℕ
  pub identity_changes : ℕ
  pub consecutive_failures : ℕ
  pub last_request_at : Option Time
  pub last_success_at : Option Time
  pub last_error_at : Option Time
  pub last_error_code : String
  pub updated_at : Time
  pub minimum_interval_seconds : ℕ
  pub hourly_limit : ℕ
  pub daily_limit : ℕ
  pub hour_window_started_at : Time
  pub day_window_started_at : Time
  pub rate_limit_window_started_at : Time
  pub account_subject : String

abbrev pub minimum_interval : Duration
minimum_interval = 15_000_000_000

abbrev pub max_per_hour : ℕ
max_per_hour = 20

abbrev pub max_per_day : ℕ
max_per_day = 80

-- A window is over when it is `length` old, or when it starts in the future.
abbrev pub window_over : Time → Time → Duration → Bool
window_over now started size = leb size (now - started) || ltb now started

normalize_hour : AiClientRisk → Time → AiClientRisk
normalize_hour s now =
    if window_over now s.hour_window_started_at hour
    then record s { hour_window_started_at = now; requests_hour = 0 }
    else s

normalize_day : AiClientRisk → Time → AiClientRisk
normalize_day s now =
    if window_over now s.day_window_started_at day
    then record s { day_window_started_at = now; requests_day = 0 }
    else s

normalize_rate_limit : AiClientRisk → Time → AiClientRisk
normalize_rate_limit s now =
    if window_over now s.rate_limit_window_started_at day
    then record s { rate_limit_window_started_at = now; rate_limit_events = 0 }
    else s

-- `until` is set and not after `now`.
abbrev pub elapsed : Option Time → Time → Bool
elapsed none now = false
elapsed (some until) now = leb until now

normalize_cooldown : AiClientRisk → Time → AiClientRisk
normalize_cooldown s now =
    if is_cooldown s.state && elapsed s.cooldown_until now
    then record s { state = normal; cooldown_until = none }
    else s

unfoldable pub normalize : AiClientRisk → Time → AiClientRisk
unfolding normalize_hour normalize_day normalize_rate_limit normalize_cooldown
normalize s now =
    normalize_cooldown (normalize_rate_limit (normalize_day (normalize_hour s now) now) now) now

unfoldable pub apply_limits : AiClientRisk → AiClientRisk
apply_limits s = record s {
  minimum_interval_seconds = 15;
  hourly_limit = max_per_hour;
  daily_limit = max_per_day;
}

pub record RiskDecision : Type 0 where
  pub allowed : Bool
  pub reason : String
  pub retry_at : Option Time
  pub risk : AiClientRisk

abbrev pub too_soon : Option Time → Time → Bool
too_soon none now = false
too_soon (some last) now = ltb now (last + minimum_interval)

abbrev pub next_request_at : Option Time → Option Time
next_request_at none = none
next_request_at (some last) = some (last + minimum_interval)

abbrev denied : AiClientRisk → String → Option Time → RiskDecision
denied s reason retry_at = record {
  allowed = false;
  reason = reason;
  retry_at = retry_at;
  risk = s;
}

-- The ladder of ReserveAIClientRequest, over a normalized row.
unfoldable pub decide : AiClientRisk → Time → RiskDecision
decide s now =
    if not (is_normal s.state)
    then denied s (state_name s.state) s.cooldown_until
    else if too_soon s.last_request_at now
    then denied s "minimum_interval" (next_request_at s.last_request_at)
    else if leb max_per_hour s.requests_hour
    then denied s "hourly_limit" (some (s.hour_window_started_at + hour))
    else if leb max_per_day s.requests_day
    then denied s "daily_limit" (some (s.day_window_started_at + day))
    else record {
      allowed = true;
      reason = "";
      retry_at = none;
      risk = record s {
        requests_hour = s.requests_hour + 1;
        requests_day = s.requests_day + 1;
        last_request_at = some now;
      };
    }

-- ReserveAIClientRequest: the decision, whose risk is the row to write.
unfoldable pub reserve : AiClientRisk → Time → RiskDecision
reserve s now =
    let d = decide (normalize s now) now in record d { risk = record d.risk { updated_at = now } }
