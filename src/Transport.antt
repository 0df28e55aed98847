-- ===== src/Transport.antt =====
-- packages/core/src/transport: what the transport's bytes are read as.
pub mod Headers
pub mod Sse
mod Tests
