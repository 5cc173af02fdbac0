-- ===== src/Risk/Invariant.antt =====
-- The well-formed risk rows, which every operation keeps.
use tok_hub.Prelude.{◌≤◌, String, ◌≡◌, Bool, true, false, List, [], ◌∷◌, arith, is_some}
use tok_hub.Prelude.Text.{to_lower, trim_space}
use tok_hub.Clock.{Time, Duration}
use tok_hub.Risk.{AiClientRisk, is_cooldown, max_per_hour, max_per_day, normalize, decide, reserve}
use tok_hub.Risk.Outcome.{
  ErrorClass, rate_limited, classify, failed, fail_with, succeed, record_result, set_paused,
  confirm_identity,
}
use tok_hub.Risk.Trace.{Event, reserve_request, result, set_pause, confirm, keep_unless, step, run}

-- The counters stay within the limits, and a cooldown, and nothing else, has an end.
pub record IsSound (s : AiClientRisk) : Type 0 where
  pub hour_bound : s.requests_hour ≤ max_per_hour
  pub day_bound : s.requests_day ≤ max_per_day
  pub cools : is_cooldown s.state ≡ is_some s.cooldown_until

pub normalize-IsSound : (s : AiClientRisk) (now : Time) → IsSound s → IsSound (normalize s now)
unfolding normalize
normalize-IsSound s now h = ground arith

decide-IsSound : (s : AiClientRisk) (now : Time) → IsSound s → IsSound (decide s now).risk
unfolding decide
decide-IsSound s now h = ground arith

reserve-IsSound : (s : AiClientRisk) (now : Time) → IsSound s → IsSound (reserve s now).risk
unfolding reserve
reserve-IsSound s now h =
    ground (arith, decide-IsSound (normalize s now) now (normalize-IsSound s now h))

fail_with-IsSound :
    (c : ErrorClass) (s : AiClientRisk) (retry_after : Duration) (now : Time)
    → IsSound s
    → IsSound (fail_with c s retry_after now)
unfolding fail_with
fail_with-IsSound rate_limited s retry_after now h = ground arith
fail_with-IsSound _ s retry_after now h = ground arith

succeed-IsSound : (s : AiClientRisk) (now : Time) → IsSound s → IsSound (succeed s now)
unfolding succeed
succeed-IsSound s now h = ground arith

record_result-IsSound :
    (s : AiClientRisk) (ok : Bool) (code : String) (retry_after : Duration) (now : Time)
    → IsSound s
    → IsSound (record_result s ok code retry_after now)
unfolding record_result
record_result-IsSound s true code retry_after now h =
    ground (arith, succeed-IsSound (normalize s now) now (normalize-IsSound s now h))
record_result-IsSound s false code retry_after now h =
    let word = to_lower (trim_space code) in
    let t = failed (normalize s now) word now in
    let k : IsSound t = ground (arith, normalize-IsSound s now h) in
    ground (arith, fail_with-IsSound (classify word) t retry_after now k)

set_paused-IsSound :
    (s : AiClientRisk) (to : Bool) (now : Time)
    → IsSound s
    → IsSound (keep_unless s (set_paused s to now))
unfolding set_paused
set_paused-IsSound s to now h = ground arith

confirm_identity-IsSound :
    (s : AiClientRisk) (subject assurance : String) (now : Time)
    → IsSound s
    → IsSound (confirm_identity s subject assurance now).0
unfolding confirm_identity
confirm_identity-IsSound s subject assurance now h = ground (arith, normalize-IsSound s now h)

-- Every operation keeps a risk row sound.
pub step-IsSound : (s : AiClientRisk) (e : Event) → IsSound s → IsSound (step s e)
unfolding step
step-IsSound s (reserve_request now) h = reserve-IsSound s now h
step-IsSound s (result ok code retry_after now) h =
    record_result-IsSound s ok code retry_after now h
step-IsSound s (set_pause to now) h = set_paused-IsSound s to now h
step-IsSound s (confirm subject assurance now) h =
    confirm_identity-IsSound s subject assurance now h

-- From a sound row, whatever the operations and their order, the row stays sound.
pub run-IsSound : (s : AiClientRisk) (es : List Event) → IsSound s → IsSound (run s es)
unfolding run
run-IsSound s [] h = h
run-IsSound s (e ∷ es) h = run-IsSound (step s e) es (step-IsSound s e h)
