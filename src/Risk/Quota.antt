-- ===== src/Risk/Quota.antt =====
-- The hourly and daily quotas and the minimum interval, over sequences of operations.
use tok_hub.Prelude.{
  ℕ, zero, suc, ◌+◌, ◌*◌, ◌≤◌, ◌<◌, String, ◌≡◌, ◌⊎◌, inl, inr, Bool, List, [], ◌∷◌, arith,
  if◌then◌else◌,
}
use tok_hub.Prelude.Text.{to_lower, trim_space}
use tok_hub.Clock.{Time, Duration, hour, day}
use tok_hub.Risk.{AiClientRisk, max_per_hour, max_per_day, normalize, decide, reserve}
use tok_hub.Risk.Outcome.{
  ErrorClass, rate_limited, classify, failed, fail_with, succeed, record_result, set_paused,
  confirm_identity,
}
use tok_hub.Risk.Trace.{
  Event, reserve_request, result, set_pause, confirm, time_of, step, is_allowed, count_allowed,
  InOrder,
}
use tok_hub.Risk.Invariant.{IsSound, step-IsSound}

abbrev one_if : Bool → ℕ
one_if b = if b then 1 else 0

-- From one row to the next, a window that opened at `w` with `c` uses counted goes on and counts
-- `a` more, or is at least `size` old and is opened anew.
abbrev Advances : Duration → Time → Time → ℕ → Time → ℕ → ℕ → Type 0
Advances size now w c w' c' a =
    ((w' ≡ w) × (c' ≡ c + a)) ⊎ ((w' ≡ now) × (w + size ≤ now) × (c' ≡ a))

-- The two windows of a row advance by a row's successor.
abbrev BothAdvance : Time → AiClientRisk → AiClientRisk → ℕ → Type 0
BothAdvance now s t a =
    (s.hour_window_started_at ≤ now
      → Advances hour now s.hour_window_started_at s.requests_hour t.hour_window_started_at
          t.requests_hour a)
    × (s.day_window_started_at ≤ now
        → Advances day now s.day_window_started_at s.requests_day t.day_window_started_at
            t.requests_day a)

-- The fields of the quotas are the same in two rows, but for `a` more uses.
record SameWindows (s t : AiClientRisk) (a : ℕ) : Type 0 where
  hour_start : t.hour_window_started_at ≡ s.hour_window_started_at
  hour_used : t.requests_hour ≡ s.requests_hour + a
  day_start : t.day_window_started_at ≡ s.day_window_started_at
  day_used : t.requests_day ≡ s.requests_day + a

normalize_advances : (s : AiClientRisk) (now : Time) → BothAdvance now s (normalize s now) 0
unfolding normalize
normalize_advances s now = (λ h. ground arith, λ h. ground arith)

decide_windows :
    (s : AiClientRisk) (now : Time)
    → SameWindows s (decide s now).risk (one_if (decide s now).allowed)
unfolding decide
decide_windows s now = ground arith

fail_with_windows :
    (c : ErrorClass) (s : AiClientRisk) (retry_after : Duration) (now : Time)
    → SameWindows s (fail_with c s retry_after now) 0
unfolding fail_with
fail_with_windows rate_limited s retry_after now = ground arith
fail_with_windows _ s retry_after now = ground arith

succeed_windows : (s : AiClientRisk) (now : Time) → SameWindows s (succeed s now) 0
unfolding succeed
succeed_windows s now = ground arith

-- A row that is normalized first and then keeps its windows.
then_same :
    (now : Time) (s t u : AiClientRisk) (a : ℕ)
    → BothAdvance now s t 0
    → SameWindows t u a
    → BothAdvance now s u a
then_same now s t u a adv same = (
  λ h. elim (adv.0 h) [ inl p ↦ inl (omega arith) | inr p ↦ inr (omega arith) ],
  λ h. elim (adv.1 h) [ inl p ↦ inl (omega arith) | inr p ↦ inr (omega arith) ],
)

reserve_advances :
    (s : AiClientRisk) (now : Time)
    → BothAdvance now s (reserve s now).risk (one_if (reserve s now).allowed)
reserve_advances s now =
    then_same now s (normalize s now) (reserve s now).risk (one_if (reserve s now).allowed)
      (normalize_advances s now)
      (unfold reserve in ground (arith, decide_windows (normalize s now) now))

result_advances :
    (s : AiClientRisk) (ok : Bool) (code : String) (retry_after : Duration) (now : Time)
    → BothAdvance now s (record_result s ok code retry_after now) 0
result_advances s ok code retry_after now =
    then_same now s (normalize s now) (record_result s ok code retry_after now) 0
      (normalize_advances s now)
      (unfold record_result in
        ground (
          arith,
          succeed_windows (normalize s now) now,
          fail_with_windows (classify (to_lower (trim_space code)))
              (failed (normalize s now) (to_lower (trim_space code)) now) retry_after now,
        ))

confirm_advances :
    (s : AiClientRisk) (subject assurance : String) (now : Time)
    → BothAdvance now s (confirm_identity s subject assurance now).0 0
confirm_advances s subject assurance now =
    then_same now s (normalize s now) (confirm_identity s subject assurance now).0 0
      (normalize_advances s now) (unfold confirm_identity in ground arith)

step_advances :
    (s : AiClientRisk) (e : Event) → BothAdvance (time_of e) s (step s e) (one_if (is_allowed s e))
unfolding step is_allowed
step_advances s (reserve_request now) = reserve_advances s now
step_advances s (result ok code retry_after now) = result_advances s ok code retry_after now
step_advances s (set_pause to now) = unfold set_paused in (λ h. ground arith, λ h. ground arith)
step_advances s (confirm subject assurance now) = confirm_advances s subject assurance now

InOrder-le : (start end : Time) (es : List Event) → InOrder start end es → start ≤ end
InOrder-le start end [] h = h
InOrder-le start end (e ∷ es) h = omega (arith, InOrder-le (time_of e) end es h.1)

-- A window of `size` that admits `limit` uses admits `limit * k` in less than `k` sizes.
module _ (size : Duration) (limit : ℕ) (started : AiClientRisk → Time) (used : AiClientRisk → ℕ)
    (bounded : (s : AiClientRisk) → IsSound s → used s ≤ limit)
    (advances : (s : AiClientRisk) (e : Event)
      → started s ≤ time_of e
      → Advances size
          (time_of e)
          (started s)
          (used s)
          (started (step s e))
          (used (step s e))
          (one_if (is_allowed s e))) where
  window_quota :
      (k : ℕ) (s : AiClientRisk) (es : List Event) (start end : Time)
      → IsSound s
      → started s ≤ start
      → InOrder start end es
      → end < started s + k * size
      → count_allowed s es + used s ≤ limit * k
  unfolding count_allowed
  window_quota zero s es start end sound begun order short =
      absurd (omega (arith, InOrder-le start end es order))
  window_quota (suc k) s [] start end sound begun order short = grind (arith, bounded s sound)
  window_quota (suc k) s (e ∷ es) start end sound begun order short =
      elim (advances s e (omega arith)) [
        | inl same ↦ ground (
          arith,
          window_quota (suc k) (step s e) es (time_of e) end (step-IsSound s e sound) (omega arith)
              order.1 (omega arith),
        )
        | inr anew ↦ ground (
          arith,
          bounded s sound,
          window_quota k (step s e) es (time_of e) end (step-IsSound s e sound) (omega arith)
              order.1 (omega arith),
        )
      ]

-- Starting from a sound row whose hourly window has begun, operations that come in the order of
-- their times and end less than k hours after the window's start let through, with the requests
-- that the window has counted, at most 20 * k requests.
pub hourly_quota :
    (k : ℕ) (s : AiClientRisk) (es : List Event) (start end : Time)
    → IsSound s
    → s.hour_window_started_at ≤ start
    → InOrder start end es
    → end < s.hour_window_started_at + k * hour
    → count_allowed s es + s.requests_hour ≤ max_per_hour * k
hourly_quota =
    window_quota hour max_per_hour (λ s. s.hour_window_started_at) (λ s. s.requests_hour)
      (λ s h. h.hour_bound) (λ s e. (step_advances s e).0)

-- Starting from a sound row whose daily window has begun, operations that come in the order of
-- their times and end less than k days after the window's start let through, with the requests
-- that the window has counted, at most 80 * k requests.
pub daily_quota :
    (k : ℕ) (s : AiClientRisk) (es : List Event) (start end : Time)
    → IsSound s
    → s.day_window_started_at ≤ start
    → InOrder start end es
    → end < s.day_window_started_at + k * day
    → count_allowed s es + s.requests_day ≤ max_per_day * k
daily_quota =
    window_quota day max_per_day (λ s. s.day_window_started_at) (λ s. s.requests_day)
      (λ s h. h.day_bound) (λ s e. (step_advances s e).1)
