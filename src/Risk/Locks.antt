-- ===== src/Risk/Locks.antt =====
-- The states that only a review, a login or the owner may end, and what ends them in the code.
use tok_hub.Prelude.{
  ◌+◌, ◌≤◌, ◌<◌, String, ◌≡◌, refl, subst, ◌⊎◌, ◌↔◌, inl, inr, Bool, true, false, ◌||◌, some, List,
  [], ◌∷◌, ◌==◌, eq_iff, arith, max, All, Bool-cases,
}
use tok_hub.Prelude.Text.{to_lower, trim_space}
use tok_hub.Clock.{Time, Duration, hour, day}
use tok_hub.Risk.{
  AiClientRisk, RiskState, cooldown, security_locked, policy_locked, manual_recovery, normalize,
  decide, reserve,
}
use tok_hub.Risk.Outcome.{
  ErrorClass, login, forbidden, identity_changed, policy, rate_limited, other, classify, failed,
  fail_with, succeed, record_result, set_paused, confirm_identity,
}
use tok_hub.Risk.Trace.{
  Event, reserve_request, result, set_pause, confirm, step, is_allowed, run, count_allowed,
}

abbrev pub IsLocked : RiskState → Type 0
IsLocked s = (s ≡ security_locked) ⊎ (s ≡ policy_locked)

-- Every event but the report of a failed task.
abbrev pub IsNoFailure : Event → Type 0
IsNoFailure (result false code retry_after now) = ⊥
IsNoFailure _ = Unit

normalize_locked :
    (s : AiClientRisk) (now : Time) → IsLocked s.state → (normalize s now).state ≡ s.state
unfolding normalize
normalize_locked s now h = ground arith

reserve-IsLocked :
    (s : AiClientRisk) (now : Time)
    → IsLocked s.state
    → IsLocked (reserve s now).risk.state × ((reserve s now).allowed ≡ false)
unfolding reserve decide
reserve-IsLocked s now h = ground (arith, normalize_locked s now h)

step-IsLocked :
    (s : AiClientRisk) (e : Event)
    → IsNoFailure e
    → IsLocked s.state
    → IsLocked (step s e).state × (is_allowed s e ≡ false)
unfolding step is_allowed
step-IsLocked s (reserve_request now) n h = reserve-IsLocked s now h
step-IsLocked s (result true code retry_after now) n h =
    unfold record_result succeed in ground (arith, normalize_locked s now h)
step-IsLocked s (result false code retry_after now) n h = absurd n
step-IsLocked s (set_pause to now) n h = unfold set_paused in ground arith
step-IsLocked s (confirm subject assurance now) n h =
    unfold confirm_identity in ground (arith, normalize_locked s now h)

-- A connection that is locked for security or by policy stays locked and lets no request through,
-- whatever reservations, successes, pauses, resumptions and identity checks come, as long as no
-- failed task is reported.
pub run-IsLocked :
    (s : AiClientRisk) (es : List Event)
    → IsLocked s.state
    → All IsNoFailure es
    → IsLocked (run s es).state × (count_allowed s es ≡ 0)
unfolding run count_allowed
run-IsLocked s [] h ok = (h, refl)
run-IsLocked s (e ∷ es) h ok =
    let (h', none_here) = step-IsLocked s e ok.0 h in
    ground (arith, run-IsLocked (step s e) es h' ok.1)

-- The codes of a failure on which a lock stays: those that lock by themselves.
abbrev pub keeps_lock : String → Bool
keeps_lock code =
    (code == "forbidden" || code == "security_challenge" || code == "403")
    || code == "identity_changed"
    || (code == "tool_event" || code == "tool_call" || code == "policy_violation")

-- The events that end a lock: failures with any other code, compared trimmed and in lower case.
abbrev pub EndsLock : Event → Type 0
EndsLock (result false code retry_after now) = keeps_lock (to_lower (trim_space code)) ≡ false
EndsLock _ = ⊥

abbrev locks : ErrorClass → Bool
locks forbidden = true
locks identity_changed = true
locks policy = true
locks _ = false

one_of_three : (a b c : Bool) → (a || b || c) ≡ true → (a ≡ true) ⊎ ((b ≡ true) ⊎ (c ≡ true))
one_of_three a b c h = ground arith

login_keeps_no_lock :
    (code : String)
    → (code == "unauthorized" || code == "login_required" || code == "401") ≡ true
    → keeps_lock code ≡ false
login_keeps_no_lock code h = elim (one_of_three _ _ _ h) [
  | inl e ↦ rw ((eq_iff code "unauthorized").0 e)
  | inr (inl e) ↦ rw ((eq_iff code "login_required").0 e)
  | inr (inr e) ↦ rw ((eq_iff code "401").0 e)
]

locks-classify : (code : String) → locks (classify code) ≡ keeps_lock code
unfolding classify
locks-classify code =
    elim (Bool-cases (code == "unauthorized" || code == "login_required" || code == "401")) [
      | inl a ↦ rw (a, login_keeps_no_lock code a) refl
      | inr a ↦ rw a (ground arith)
    ]

fail-IsLocked :
    (c : ErrorClass) (s : AiClientRisk) (retry : Duration) (now : Time)
    → IsLocked (fail_with c s retry now).state ↔ (locks c ≡ true)
unfolding fail_with
fail-IsLocked login s retry now = ground arith
fail-IsLocked forbidden s retry now = ground arith
fail-IsLocked identity_changed s retry now = ground arith
fail-IsLocked policy s retry now = ground arith
fail-IsLocked rate_limited s retry now = ground arith
fail-IsLocked other s retry now = ground arith

failure-IsLocked :
    (s : AiClientRisk) (code : String) (retry : Duration) (now : Time)
    → IsLocked (record_result s false code retry now).state
      ↔ (keeps_lock (to_lower (trim_space code)) ≡ true)
unfolding record_result
failure-IsLocked s code retry now =
    let c = to_lower (trim_space code) in
    subst
      (λ b.
        IsLocked (fail_with (classify c) (failed (normalize s now) c now) retry now).state
        ↔ (b ≡ true))
      (locks-classify c) (fail-IsLocked (classify c) (failed (normalize s now) c now) retry now)

kept_lock :
    (s : AiClientRisk) (e : Event)
    → IsNoFailure e
    → IsLocked s.state
    → ¬ (¬ IsLocked (step s e).state)
kept_lock s e n h open_now = open_now (step-IsLocked s e n h).0

-- A connection that is locked for security or by policy is no longer locked after an event, of all there
-- are, exactly where the event is the report of a
-- failed task whose code, trimmed and in lower case, is none of forbidden, security_challenge, 403,
-- identity_changed, tool_event, tool_call and policy_violation.
pub lock_ends_iff :
    (s : AiClientRisk) (e : Event) → IsLocked s.state → (¬ IsLocked (step s e).state) ↔ EndsLock e
unfolding step
lock_ends_iff s (reserve_request now) h =
    ((λ k. kept_lock s (reserve_request now) tt h k), (λ k. absurd k))
lock_ends_iff s (result true code retry_after now) h =
    ((λ k. kept_lock s (result true code retry_after now) tt h k), (λ k. absurd k))
lock_ends_iff s (set_pause to now) h =
    ((λ k. kept_lock s (set_pause to now) tt h k), (λ k. absurd k))
lock_ends_iff s (confirm subject assurance now) h =
    ((λ k. kept_lock s (confirm subject assurance now) tt h k), (λ k. absurd k))
lock_ends_iff s (result false code retry_after now) h =
    let f = failure-IsLocked s code retry_after now in
    (
      λ k. elim (Bool-cases (keeps_lock (to_lower (trim_space code)))) [
        | inl kept ↦ absurd (k (f.1 kept))
        | inr ended ↦ ended
      ],
      λ ended still. (let kept = f.0 still in absurd cc),
    )

-- The window of rate-limit events is current at `now`.
abbrev InWindow : AiClientRisk → Time → Type 0
InWindow s now =
    (s.rate_limit_window_started_at ≤ now) × (now < s.rate_limit_window_started_at + day)

normalize-InWindow : (s : AiClientRisk) (now : Time) → InWindow (normalize s now) now
unfolding normalize
normalize-InWindow s now = ground arith

normalize-InWindow_keep :
    (s : AiClientRisk) (now : Time)
    → InWindow s now
    → InWindow (normalize s now) now × ((normalize s now).rate_limit_events ≡ s.rate_limit_events)
unfolding normalize
normalize-InWindow_keep s now h = ground arith

first_rate_limit :
    (s : AiClientRisk) (retry : Duration) (now : Time)
    → InWindow s now
    → s.rate_limit_events ≡ 0
    → let t = fail_with rate_limited s retry now in
      (t.state ≡ cooldown)
      × (t.rate_limit_events ≡ 1)
      × (t.rate_limit_window_started_at ≡ s.rate_limit_window_started_at)
      × (t.cooldown_until ≡ some (now + max hour retry))
unfolding fail_with
first_rate_limit s retry now h none_yet = ground arith

next_rate_limit :
    (s : AiClientRisk) (retry : Duration) (now : Time)
    → InWindow s now
    → 0 < s.rate_limit_events
    → (fail_with rate_limited s retry now).state ≡ manual_recovery
unfolding fail_with
next_rate_limit s retry now h some_yet = ground arith

-- Of two reports of a rate limit with no other event between them, less than a day apart in the
-- same window, the first cools the connection down for an hour or more and the second holds it
-- until the owner resumes it.
pub second_rate_limit_holds :
    (s : AiClientRisk) (code code' : String) (retry retry' : Duration) (t u : Time)
    → classify (to_lower (trim_space code)) ≡ rate_limited
    → classify (to_lower (trim_space code')) ≡ rate_limited
    → (normalize s t).rate_limit_events ≡ 0
    → (normalize s t).rate_limit_window_started_at ≤ u
    → u < (normalize s t).rate_limit_window_started_at + day
    → let first = record_result s false code retry t in
      let second = record_result first false code' retry' u in
      (first.state ≡ cooldown)
      × (first.cooldown_until ≡ some (t + max hour retry))
      × (second.state ≡ manual_recovery)
second_rate_limit_holds s code code' retry retry' t u c c' no_events after before =
    let row = failed (normalize s t) (to_lower (trim_space code)) t in
    let one = first_rate_limit row retry t (normalize-InWindow s t) no_events in
    let first = record_result s false code retry t in
    let events : first.rate_limit_events ≡ 1 = unfold record_result in rw c one.1 in
    let start : first.rate_limit_window_started_at ≡ row.rate_limit_window_started_at =
      unfold record_result in rw c one.2 in
    let two = normalize-InWindow_keep first u (omega arith) in
    (
      unfold record_result in rw c one.0,
      unfold record_result in rw c one.3,
      unfold record_result in
          rw c' (
            next_rate_limit (failed (normalize first u) (to_lower (trim_space code')) u) retry' u
              two.0 (omega arith)),
    )
