-- ===== src/Risk/Admission.antt =====
-- When a reservation is allowed, and what a refusal says.
use tok_hub.Prelude.{◌+◌, ◌≤◌, ◌<◌, ◌≡◌, ◌↔◌, ◌⊎◌, true, Option, none, some, arith}
use tok_hub.Clock.{Time, hour, day}
use tok_hub.Risk.{
  AiClientRisk, normal, cooldown, minimum_interval, max_per_hour, max_per_day, window_over, elapsed,
  normalize, decide, reserve,
}

abbrev pub Waited : Option Time → Time → Type 0
Waited none now = Unit
Waited (some last) now = last + minimum_interval ≤ now

-- What a row must say for a request at `now`, read off the row as it stands in the table.
pub record IsAdmissible (s : AiClientRisk) (now : Time) : Type 0 where
  pub usable : (s.state ≡ normal) ⊎ ((s.state ≡ cooldown) × (elapsed s.cooldown_until now ≡ true))
  pub waited : Waited s.last_request_at now
  pub in_hour :
      (window_over now s.hour_window_started_at hour ≡ true) ⊎ (s.requests_hour < max_per_hour)
  pub in_day : (window_over now s.day_window_started_at day ≡ true) ⊎ (s.requests_day < max_per_day)

-- A request is let through exactly when the row is normal or its cooldown has ended, the minimum
-- interval since the last request has passed, and each quota's window is over or has room.
pub allowed_iff :
    (s : AiClientRisk) (now : Time) → ((reserve s now).allowed ≡ true) ↔ IsAdmissible s now
unfolding reserve normalize decide
allowed_iff s now = (
  λ h. record {
    usable = ground arith;
    waited = ground arith;
    in_hour = ground arith;
    in_day = ground arith;
  },
  λ h. ground arith,
)
