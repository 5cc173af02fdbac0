-- ===== src/Refresh/Spacing.antt =====
-- The slots of a provider's gate.
use tok_hub.Prelude.{◌+◌, ◌≤◌, ◌≡◌, refl, List, [], ◌∷◌, arith}
use tok_hub.Clock.{Time}
use tok_hub.Refresh.{ProviderGate, reserve_rate_slot}

-- The gate after calls at some times, in the order in which they take its lock.
unfoldable pub after_slots : ProviderGate → List Time → ProviderGate
after_slots g [] = g
after_slots g (now ∷ nows) = after_slots (reserve_rate_slot g now).1 nows

slot_bounds :
    (g : ProviderGate) (now : Time)
    → (g.next ≤ (reserve_rate_slot g now).0)
      × (now ≤ (reserve_rate_slot g now).0)
      × ((reserve_rate_slot g now).1.next ≡ (reserve_rate_slot g now).0 + g.interval)
      × ((reserve_rate_slot g now).1.interval ≡ g.interval)
unfolding reserve_rate_slot
slot_bounds g now = (ground arith, ground arith, refl, refl)

after_le :
    (g : ProviderGate) (nows : List Time)
    → (g.next ≤ (after_slots g nows).next) × ((after_slots g nows).interval ≡ g.interval)
unfolding after_slots
after_le g [] = (omega arith, refl)
after_le g (now ∷ nows) =
    let (n, i) = after_le (reserve_rate_slot g now).1 nows in
    let (a, b, c, d) = slot_bounds g now in (omega (arith, n, a, c), omega (arith, i, d))

-- Of two slots of a gate, with any others between them, the later is at least the gate's interval after
-- the earlier, and no slot lies before the time of its call.
pub slots_are_spaced :
    (g : ProviderGate) (first second : Time) (between : List Time)
    → ((reserve_rate_slot g first).0 + g.interval
        ≤ (reserve_rate_slot (after_slots (reserve_rate_slot g first).1 between) second).0)
      × (first ≤ (reserve_rate_slot g first).0)
slots_are_spaced g first second between =
    let (a, b, c, d) = slot_bounds g first in
    let (n, i) = after_le (reserve_rate_slot g first).1 between in
    let s = slot_bounds (after_slots (reserve_rate_slot g first).1 between) second in
    let (e, f, h, k) = s in (omega (arith, c, n, e), b)
