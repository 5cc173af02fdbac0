-- ===== src/Gateway/Circuit.antt =====
-- The circuit breaker of the gateway, openCircuit and circuitOpen of internal/api/gateway_handlers.go:
-- a channel that failed is left out for 30 seconds. Redis is asked first; where it fails or is absent,
-- the map of the process decides, which is modelled here as a function. The answer of Redis is an
-- argument, `none` for an error.
use tok_hub.Prelude.{
  ◌+◌, ◌*◌, ◌≤◌, String, ◌≡◌, refl, ◌⊎◌, inl, inr, Bool, true, false, Option, none, some, List, [],
  ◌∷◌, arith, ◌==◌, ltb, if◌then◌else◌, All, Bool-cases, Option-cases, eq_iff, eq_refl,
}
use tok_hub.Clock.{Time, Duration, second}

abbrev pub Circuits : Type 0
Circuits = String → Option Time

abbrev pub circuit_ttl : Duration
circuit_ttl = 30 * second

abbrev set_until : Circuits → String → Option Time → Circuits
set_until circuits channel until = λ c. if c == channel then until else circuits c

-- openCircuit, on the map of the process; the failure of Redis is only logged.
unfoldable pub open_circuit : Circuits → String → Time → Circuits
open_circuit circuits channel now = set_until circuits channel (some (now + circuit_ttl))

-- The part of circuitOpen that reads the map of the process.
unfoldable pub local_circuit_open : Circuits → String → Time → Bool × Circuits
local_circuit_open circuits channel now = elim (circuits channel) [
  | none ↦ (false, circuits)
  | some until ↦
      if ltb until now then (false, set_until circuits channel none) else (true, circuits)
]

unfoldable pub circuit_open : Option Bool → Circuits → String → Time → Bool × Circuits
circuit_open cached circuits channel now = elim cached [
  | some is_open ↦ (is_open, circuits)
  | none ↦ local_circuit_open circuits channel now
]

-- The uses of the breaker, with their channel and time.
pub data Use : Type 0 where
  opens : String → Time → Use
  asks : Option Bool → String → Time → Use

unfoldable pub use_circuits : Circuits → List Use → Circuits
use_circuits circuits [] = circuits
use_circuits circuits (opens channel now ∷ uses) =
    use_circuits (open_circuit circuits channel now) uses
use_circuits circuits (asks cached channel now ∷ uses) =
    use_circuits (circuit_open cached circuits channel now).1 uses

-- The use lies between two instants.
unfoldable pub Within : Time → Time → Use → Type 0
Within t u (opens channel now) = (t ≤ now) × (now ≤ u)
Within t u (asks cached channel now) = (t ≤ now) × (now ≤ u)

-- The channel is held back at least until an instant.
HoldsUntil : Circuits → String → Time → Type 0
HoldsUntil circuits channel u = (until : Time) × (circuits channel ≡ some until) × (u ≤ until)

open-HoldsUntil :
    (circuits : Circuits) (channel other : String) (u now : Time)
    → u ≤ now + circuit_ttl
    → HoldsUntil circuits channel u ⊎ ((channel == other) ≡ true)
    → HoldsUntil (open_circuit circuits other now) channel u
unfolding open_circuit HoldsUntil
open-HoldsUntil circuits channel other u now h which = elim (Bool-cases (channel == other)) [
  | inl same ↦ (now + circuit_ttl, rw same refl, h)
  | inr differs ↦ elim which [
    | inl (until, e, later) ↦ (until, rw differs e, later)
    | inr same ↦ absurd cc
  ]
]

ask-HoldsUntil :
    (cached : Option Bool) (circuits : Circuits) (channel other : String) (u now : Time)
    → now ≤ u
    → HoldsUntil circuits channel u
    → HoldsUntil (circuit_open cached circuits other now).1 channel u
unfolding circuit_open local_circuit_open HoldsUntil
ask-HoldsUntil (some b) circuits channel other u now h holds = holds
ask-HoldsUntil none circuits channel other u now h (until, e, later) =
    elim (Option-cases (circuits other)) [
      | inl absent ↦ (until, rw (absent, local_circuit_open) e, later)
      | inr (until', e') ↦ elim (Bool-cases (ltb until' now)) [
        | inr still ↦ (until, rw (e', local_circuit_open, still) e, later)
        | inl over ↦ elim (Bool-cases (channel == other)) [
          | inl same ↦
              (let here : circuits channel ≡ some until' = rw ((eq_iff channel other).0 same) e' in
                let equal : until ≡ until' = cc in absurd (ground (arith, equal)))
          | inr differs ↦ (until, rw (e', local_circuit_open, over, differs) e, later)
        ]
      ]
    ]

uses-HoldsUntil :
    (channel : String) (t u : Time) (uses : List Use) (circuits : Circuits)
    → u ≤ t + circuit_ttl
    → All (Within t u) uses
    → HoldsUntil circuits channel u
    → HoldsUntil (use_circuits circuits uses) channel u
unfolding use_circuits Within
uses-HoldsUntil channel t u [] circuits h within holds = holds
uses-HoldsUntil channel t u (opens other now ∷ uses) circuits h ((lo, hi), within) holds =
    uses-HoldsUntil channel t u uses _ h within
      (open-HoldsUntil circuits channel other u now (omega arith) (inl holds))
uses-HoldsUntil channel t u (asks cached other now ∷ uses) circuits h ((lo, hi), within) holds =
    uses-HoldsUntil channel t u uses _ h within
      (ask-HoldsUntil cached circuits channel other u now hi holds)

holding_is_open :
    (circuits : Circuits) (channel : String) (u : Time)
    → HoldsUntil circuits channel u
    → (circuit_open none circuits channel u).0 ≡ true
unfolding circuit_open local_circuit_open HoldsUntil
holding_is_open circuits channel u (until, e, later) =
    let not_over : ltb until u ≡ false = ground arith in rw (e, local_circuit_open, not_over) refl

-- A channel whose circuit was opened at t is reported open at any u up to 30 seconds later, whatever
-- uses of the breaker come between the two, when Redis does not answer.
pub circuit_holds :
    (circuits : Circuits) (channel : String) (t u : Time) (uses : List Use)
    → u ≤ t + circuit_ttl
    → All (Within t u) uses
    → (circuit_open none (use_circuits (open_circuit circuits channel t) uses) channel u).0 ≡ true
circuit_holds circuits channel t u uses h within = holding_is_open _ channel u (
    uses-HoldsUntil channel t u uses _ h within
      (open-HoldsUntil circuits channel channel u t h (inr (eq_refl channel))))
