-- ===== src/Node.antt =====
-- packages/node/src: the transport on Node.
pub mod Body
pub mod Resolver
pub mod Decimal
pub mod Exchange
pub mod Transport
mod Tests
