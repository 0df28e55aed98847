-- ===== src/Runner.antt =====
-- packages/core/src/runner: how a run takes its draws.
pub mod Dilution
pub mod Session
pub mod Run
mod Tests
