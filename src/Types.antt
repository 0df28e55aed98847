-- ===== src/Types.antt =====
-- The vocabularies that the components share: packages/core/src/types, and the records of a run in
-- packages/core/src/runner/types.ts.
pub mod Assessment
pub mod Target
pub mod Run
pub mod Events
