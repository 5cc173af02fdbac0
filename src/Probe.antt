-- ===== src/Probe.antt =====
-- The probes of a channel, internal/prober and internal/events/probe_runtime.go: steps make a layer
-- summary, three summaries make a status, and the scheduler decides which layer runs next.
pub mod Status
pub mod Steps
pub mod Schedule
