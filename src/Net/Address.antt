-- ===== src/Net/Address.antt =====
-- packages/core/src/net/address.ts: where an IP address sits, for the outbound guard. The parsing
-- is in Parse, the tables in Ranges, the classification of a literal in Classify; Canonical,
-- Embedded and Blocks hold what is proved of them.
pub mod Parse
pub mod Ranges
pub mod Classify
pub mod Canonical
pub mod Embedded
pub mod Blocks
