-- ===== src/Web.antt =====
-- packages/web/src/lib: what the page keeps of a check.
pub mod Poll
mod Tests
