-- ===== src/Net.antt =====
-- packages/core/src/net: the outbound guard. Address classifies a literal, Guard decides on the
-- addresses of a name, TargetUrl reduces the URL that the buyer typed.
pub mod Address
pub mod Guard
pub mod TargetUrl
mod Tests
