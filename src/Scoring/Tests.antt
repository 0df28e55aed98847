-- ===== src/Scoring/Tests.antt =====
-- Runs of packages/core/src/scoring at concrete inputs, on whole thousandths.
mod Runs
mod Evidence
mod Results
