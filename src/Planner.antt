-- ===== src/Planner.antt =====
-- packages/core/src/planner: which probes a run sends, in what order, and what it may spend.
pub mod Profiles
pub mod Shuffle
pub mod Probe
pub mod Plan
mod Tests
