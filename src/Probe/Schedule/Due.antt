-- ===== src/Probe/Schedule/Due.antt =====
-- What a tick of the scheduler publishes.
pub mod Layers
pub mod Passes
pub mod Ticks
pub mod Rounds
pub mod Fairness
