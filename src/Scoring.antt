-- ===== src/Scoring.antt =====
-- packages/core/src/scoring: what a run found, read as one assessment with a confidence.
pub mod Numbers
pub mod Verdict
pub mod Aggregate
pub mod Dispersion
pub mod Ceiling
pub mod Assess
mod Tests
