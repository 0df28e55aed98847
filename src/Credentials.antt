-- ===== src/Credentials.antt =====
-- packages/core/src/credentials: what is done with an API key.
pub mod ApiKey
pub mod Redact
mod Tests
