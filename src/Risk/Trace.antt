-- ===== src/Risk/Trace.antt =====
-- Sequences of the operations on one risk row. The table's row lock puts them in one order.
use tok_hub.Prelude.{
  ℕ, suc, ◌≤◌, String, Bool, false, Option, none, some, List, [], ◌∷◌, if◌then◌else◌,
}
use tok_hub.Clock.{Time, Duration}
use tok_hub.Risk.{AiClientRisk, reserve}
use tok_hub.Risk.Outcome.{record_result, set_paused, confirm_identity}

pub data Event : Type 0 where
  reserve_request : Time → Event
  result : Bool → String → Duration → Time → Event
  set_pause : Bool → Time → Event
  confirm : String → String → Time → Event

abbrev pub time_of : Event → Time
time_of (reserve_request now) = now
time_of (result ok code retry_after now) = now
time_of (set_pause to now) = now
time_of (confirm subject assurance now) = now

-- A refused pause or resume is rolled back.
abbrev pub keep_unless : AiClientRisk → Option AiClientRisk → AiClientRisk
keep_unless s none = s
keep_unless s (some t) = t

unfoldable pub step : AiClientRisk → Event → AiClientRisk
step s (reserve_request now) = (reserve s now).risk
step s (result ok code retry_after now) = record_result s ok code retry_after now
step s (set_pause to now) = keep_unless s (set_paused s to now)
step s (confirm subject assurance now) = (confirm_identity s subject assurance now).0

-- Whether the event is a reservation that is allowed.
unfoldable pub is_allowed : AiClientRisk → Event → Bool
is_allowed s (reserve_request now) = (reserve s now).allowed
is_allowed s _ = false

unfoldable pub run : AiClientRisk → List Event → AiClientRisk
run s [] = s
run s (e ∷ es) = run (step s e) es

-- How many requests a sequence of events lets through.
unfoldable pub count_allowed : AiClientRisk → List Event → ℕ
count_allowed s [] = 0
count_allowed s (e ∷ es) =
    let rest = count_allowed (step s e) es in if is_allowed s e then suc rest else rest

-- The events come in the order of their times, from `start` to `end`.
abbrev pub InOrder : Time → Time → List Event → Type 0
InOrder start end [] = start ≤ end
InOrder start end (e ∷ es) = (start ≤ time_of e) × InOrder (time_of e) end es
