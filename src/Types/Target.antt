-- ===== src/Types/Target.antt =====
-- packages/core/src/types/target.ts: vendor, wire protocol, and the relationship between them.
use verif_ai.Common.{Bool, true, false, List, [], ◌∷◌, filter, if◌then◌else◌}

pub data Vendor : Type 0 where
  anthropic openai : Vendor

pub data Protocol : Type 0 where
  anthropic_messages openai_chat openai_responses : Protocol

pub data Pairing : Type 0 where
  native cross_protocol : Pairing

abbrev pub vendor_eq : Vendor → Vendor → Bool
vendor_eq anthropic anthropic = true
vendor_eq openai openai = true
vendor_eq _ _ = false

abbrev pub protocol_eq : Protocol → Protocol → Bool
protocol_eq anthropic_messages anthropic_messages = true
protocol_eq openai_chat openai_chat = true
protocol_eq openai_responses openai_responses = true
protocol_eq _ _ = false

abbrev pub protocol_owner : Protocol → Vendor
protocol_owner anthropic_messages = anthropic
protocol_owner openai_chat = openai
protocol_owner openai_responses = openai

unfoldable pub pairing_of : Protocol → Vendor → Pairing
pairing_of protocol claimed_vendor =
    if vendor_eq (protocol_owner protocol) claimed_vendor then native else cross_protocol

abbrev pub protocols : List Protocol
protocols = anthropic_messages ∷ openai_chat ∷ openai_responses ∷ []

unfoldable pub recommended_protocols_for : Vendor → List Protocol
recommended_protocols_for vendor = filter (λ p. vendor_eq (protocol_owner p) vendor) protocols
