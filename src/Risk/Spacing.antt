-- ===== src/Risk/Spacing.antt =====
-- The minimum interval between the requests that are let through.
use tok_hub.Prelude.{
  ◌+◌, ◌≤◌, String, ◌≡◌, Bool, true, false, Option, none, some, List, [], ◌∷◌, arith,
}
use tok_hub.Prelude.Text.{to_lower, trim_space}
use tok_hub.Clock.{Time, Duration}
use tok_hub.Risk.{AiClientRisk, minimum_interval, normalize, decide, reserve}
use tok_hub.Risk.Outcome.{
  ErrorClass, rate_limited, classify, failed, fail_with, succeed, record_result, set_paused,
  confirm_identity,
}
use tok_hub.Risk.Trace.{Event, reserve_request, result, set_pause, confirm, step, run}

-- A request was let through at `t` or later.
abbrev SentSince : Time → Option Time → Type 0
SentSince t none = ⊥
SentSince t (some last) = t ≤ last

module _ (t : Time) where
  normalize_sent :
      (s : AiClientRisk) (now : Time)
      → SentSince t s.last_request_at
      → SentSince t (normalize s now).last_request_at
  unfolding normalize
  normalize_sent s now h = ground arith

  decide_sent :
      (s : AiClientRisk) (now : Time)
      → SentSince t s.last_request_at
      → SentSince t (decide s now).risk.last_request_at
  unfolding decide
  decide_sent s now h = ground arith

  fail_with_sent :
      (c : ErrorClass) (s : AiClientRisk) (retry_after : Duration) (now : Time)
      → SentSince t s.last_request_at
      → SentSince t (fail_with c s retry_after now).last_request_at
  unfolding fail_with
  fail_with_sent rate_limited s retry_after now h = ground arith
  fail_with_sent _ s retry_after now h = ground arith

  result_sent :
      (s : AiClientRisk) (ok : Bool) (code : String) (retry_after : Duration) (now : Time)
      → SentSince t s.last_request_at
      → SentSince t (record_result s ok code retry_after now).last_request_at
  unfolding record_result succeed
  result_sent s true code retry_after now h = ground (arith, normalize_sent s now h)
  result_sent s false code retry_after now h =
      fail_with_sent (classify (to_lower (trim_space code)))
        (failed (normalize s now) (to_lower (trim_space code)) now) retry_after now
        (normalize_sent s now h)

  step_sent :
      (s : AiClientRisk) (e : Event)
      → SentSince t s.last_request_at
      → SentSince t (step s e).last_request_at
  unfolding step
  step_sent s (reserve_request now) h =
      unfold reserve in decide_sent (normalize s now) now (normalize_sent s now h)
  step_sent s (result ok code retry_after now) h = result_sent s ok code retry_after now h
  step_sent s (set_pause to now) h = unfold set_paused in ground arith
  step_sent s (confirm subject assurance now) h =
      unfold confirm_identity in ground (arith, normalize_sent s now h)

  run_sent :
      (s : AiClientRisk) (es : List Event)
      → SentSince t s.last_request_at
      → SentSince t (run s es).last_request_at
  unfolding run
  run_sent s [] h = h
  run_sent s (e ∷ es) h = run_sent (step s e) es (step_sent s e h)

  -- A request that is let through comes the minimum interval after an earlier one.
  decide_waits :
      (s : AiClientRisk) (now : Time)
      → SentSince t s.last_request_at
      → (decide s now).allowed ≡ true
      → t + minimum_interval ≤ now
  unfolding decide
  decide_waits s now h a = ground arith

allowed_sent :
    (s : AiClientRisk) (now : Time)
    → (decide s now).allowed ≡ true
    → SentSince now (decide s now).risk.last_request_at
unfolding decide
allowed_sent s now a = ground arith

-- If a request is let through at t, and after any operations another is let through at u, then u
-- is at least the minimum interval of 15 seconds after t.
pub spaced_apart :
    (s : AiClientRisk) (t u : Time) (es : List Event)
    → (reserve s t).allowed ≡ true
    → (reserve (run (reserve s t).risk es) u).allowed ≡ true
    → t + minimum_interval ≤ u
unfolding reserve
spaced_apart s t u es a b =
    let r = run (reserve s t).risk es in
    let sent = run_sent t (reserve s t).risk es (allowed_sent (normalize s t) t a) in
    decide_waits t (normalize r u) u (normalize_sent t r u sent) b
