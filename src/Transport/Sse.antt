-- ===== src/Transport/Sse.antt =====
-- packages/core/src/transport/sse.ts: server-sent events, decoded incrementally. The closure's
-- variables are the record State; Fields has the field rules, Scan the loop over decoded text,
-- Decoder the two methods over the platform's text decoders.
pub mod Fields
pub mod Scan
pub mod Decoder
pub mod Steps
pub mod Stamps
pub mod Chunks
pub mod Stream
