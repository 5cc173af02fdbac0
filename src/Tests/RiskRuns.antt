-- ===== src/Tests/RiskRuns.antt =====
-- Runs of the risk record: a connection that sends, is rate limited, locked and read again.
use tok_hub.Prelude.{
  ◌+◌, ◌*◌, ◌≤◌, ◌≡◌, refl, ◌↔◌, inl, true, false, none, some, List, [], ◌∷◌, max, arith,
}
use tok_hub.Prelude.Text.{to_lower, trim_space}
use tok_hub.Clock.{Time, second, minute, hour}
use tok_hub.Risk.{
  AiClientRisk, RiskDecision, normal, cooldown, reauth_required, security_locked, manual_recovery,
  minimum_interval, normalize, decide, reserve, apply_limits,
}
use tok_hub.Risk.Outcome.{rate_limited, other, classify, succeed, record_result}
use tok_hub.Risk.Trace.{
  Event, reserve_request, result, set_pause, confirm, step, is_allowed, run, count_allowed,
}
use tok_hub.Risk.Invariant.{IsSound, run-IsSound}
use tok_hub.Risk.Admission.{IsAdmissible, allowed_iff}
use tok_hub.Risk.Quota.{hourly_quota, daily_quota}
use tok_hub.Risk.Spacing.{spaced_apart}
use tok_hub.Risk.Locks.{IsLocked, run-IsLocked, EndsLock, lock_ends_iff, second_rate_limit_holds}
use tok_hub.Risk.Table.{
  RiskRow, Database, select_risk, reserve_ai_client_request, record_ai_client_result,
}
use tok_hub.Risk.Stored.{Stores, reserve-Stores, result-Stores}
use tok_hub.Risk.Rejection.{rejection_retry, Answers}
use tok_hub.Risk.Errors.{Answered, result_error_by_class}
use tok_hub.Risk.Rejection.{official_client_result_error}

abbrev start : Time
start = 63_000_000_000_000_000_000

abbrev fresh : AiClientRisk
fresh = record {
  connection_id = "c1";
  provider = "openai";
  identity_assurance = "account";
  state = normal;
  cooldown_until = none;
  requests_hour = 0;
  requests_day = 0;
  rate_limit_events = 0;
  identity_changes = 0;
  consecutive_failures = 0;
  last_request_at = none;
  last_success_at = none;
  last_error_at = none;
  last_error_code = "";
  updated_at = start;
  minimum_interval_seconds = 0;
  hourly_limit = 0;
  daily_limit = 0;
  hour_window_started_at = start;
  day_window_started_at = start;
  rate_limit_window_started_at = start;
  account_subject = "subject";
}

abbrev locked : AiClientRisk
locked = record fresh { state = security_locked }

fresh-IsSound : IsSound fresh
fresh-IsSound = ground arith

abbrev morning : List Event
morning =
    reserve_request (start + second)
    ∷ reserve_request (start + 2 * second)
    ∷ result true "" 0 (start + 5 * second)
    ∷ reserve_request (start + 20 * second)
    ∷ []

count_allowed-morning : count_allowed fresh morning ≡ 2
unfolding count_allowed is_allowed step reserve normalize decide record_result succeed
count_allowed-morning = refl

run-IsSound_example : IsSound (run fresh morning)
run-IsSound_example = run-IsSound fresh morning fresh-IsSound

allowed_iff_example : ((reserve fresh start).allowed ≡ true) ↔ IsAdmissible fresh start
allowed_iff_example = allowed_iff fresh start

hourly_quota_example : count_allowed fresh morning + 0 ≤ 20
hourly_quota_example =
    hourly_quota 1 fresh morning start (start + minute) fresh-IsSound (omega arith) (omega arith)
      (omega arith)

daily_quota_example : count_allowed fresh morning + 0 ≤ 80
daily_quota_example =
    daily_quota 1 fresh morning start (start + minute) fresh-IsSound (omega arith) (omega arith)
      (omega arith)

spaced_apart_example : start + second + minimum_interval ≤ start + 20 * second
unfolding reserve normalize decide run step
spaced_apart_example = spaced_apart fresh (start + second) (start + 20 * second) [] refl refl

abbrev attempts : List Event
attempts =
    set_pause false (start + second)
    ∷ reserve_request (start + 2 * second)
    ∷ confirm "subject" "account" (start + 3 * second)
    ∷ result true "" 0 (start + 4 * second)
    ∷ []

run-IsLocked_example : IsLocked (run locked attempts).state × (count_allowed locked attempts ≡ 0)
run-IsLocked_example = run-IsLocked locked attempts (inl refl) (tt, (tt, (tt, (tt, tt))))

timeout_is_other : classify (to_lower (trim_space "timeout")) ≡ other
unfolding classify to_lower trim_space
timeout_is_other = refl

lock_ends_iff_example :
    (¬ IsLocked (step locked (result false "timeout" 0 start)).state)
    ↔ EndsLock (result false "timeout" 0 start)
lock_ends_iff_example = lock_ends_iff locked (result false "timeout" 0 start) (inl refl)

rate_limited_code : classify (to_lower (trim_space " RATE_LIMITED")) ≡ rate_limited
unfolding classify to_lower trim_space
rate_limited_code = refl

second_rate_limit_holds_example :
    let first = record_result fresh false " RATE_LIMITED" 0 (start + minute) in
    let second = record_result first false " RATE_LIMITED" 0 (start + 2 * hour) in
    (first.state ≡ cooldown)
    × (first.cooldown_until ≡ some (start + minute + max hour 0))
    × (second.state ≡ manual_recovery)
unfolding normalize
second_rate_limit_holds_example =
    second_rate_limit_holds fresh " RATE_LIMITED" " RATE_LIMITED" 0 0 (start + minute)
      (start + 2 * hour) rate_limited_code rate_limited_code refl (omega arith) (omega arith)

abbrev row : RiskRow
row = record { owner_user_id = "u1"; org_id = "o1"; risk = fresh }

abbrev database : Database
database = record { risks = row ∷ []; connections = [] }

found : select_risk "u1" "o1" "c1" database.risks ≡ some row
unfolding select_risk
found = refl

reserve-Stores_example :
    (d : RiskDecision) × (db' : Database) × (reserve_ai_client_request database "u1" "o1" "c1" start
        start
      ≡ some (d, db'))
    × Stores database db' "u1" "o1" "c1" row (reserve_request start)
    × (d
        ≡ record (reserve fresh start) { risk = apply_limits (step fresh (reserve_request start)) })
reserve-Stores_example = reserve-Stores database "u1" "o1" "c1" row start start found

result-Stores_example :
    (s : AiClientRisk) × (db' : Database) × (record_ai_client_result database "u1" "o1" "c1" false
        "403" 0 start start
      ≡ some (s, db'))
    × Stores database db' "u1" "o1" "c1" row (result false "403" 0 start)
    × (s ≡ apply_limits (step fresh (result false "403" 0 start)))
result-Stores_example = result-Stores database "u1" "o1" "c1" row start start found false "403" 0

locked_refused : (reserve locked start).allowed ≡ false
unfolding reserve normalize decide
locked_refused = refl

locked-IsSound : IsSound locked
locked-IsSound = ground arith

rejection_retry_example :
    Answers start (reserve locked start).reason (reserve locked start).retry_at
rejection_retry_example = rejection_retry locked start locked-IsSound locked_refused

forbidden_code : to_lower (trim_space "403") ≡ "403"
unfolding to_lower trim_space
forbidden_code = refl

result_error_by_class_example :
    let answer = (official_client_result_error "403" "").status in
    let state = (record_result fresh false "403" 0 start).state in
    Answered "403" answer state
    × ((answer ≡ 409) ↔ (state ≡ reauth_required))
    × ((answer ≡ 423) ↔ IsLocked state)
result_error_by_class_example = result_error_by_class "403" "" fresh 0 start forbidden_code
