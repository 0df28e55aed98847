-- ===== src/Node/Resolver.antt =====
-- packages/node/src/resolver.ts: the lookup that pins a connection to the addresses that were checked.
-- The resolver of the system and `isIP` are the platform's: the second is a parameter. A hostname is in
-- ASCII by the time it comes here, so that `toLowerCase` is that of its letters.
pub mod Pins
use verif_ai.Common.{
  ℕ, Bool, true, false, ◌&&◌, ◌||◌, Option, none, some, List, [], ◌∷◌, Text, text_eq, ◌==◌,
  if◌then◌else◌, filter, map,
}
use verif_ai.Transport.Headers.{to_lower_case}

pub record PinnedAddress : Type 0 where
  pub address : Text
  pub family : ℕ

-- The family that a lookup asks for: a word, a number, or nothing.
pub data FamilyOption : Type 0 where
  ipv4_family ipv6_family absent_family : FamilyOption
  numbered : ℕ → FamilyOption

abbrev pub requested_family : FamilyOption → ℕ
requested_family ipv4_family = 4
requested_family ipv6_family = 6
requested_family absent_family = 0
requested_family (numbered family) = family

-- What the callback is given.
pub data LookupAnswer : Type 0 where
  unpinned_lookup not_found : LookupAnswer
  all_of : List PinnedAddress → LookupAnswer
  one_of : PinnedAddress → LookupAnswer

abbrev pub pin : (Text → ℕ) → List Text → List PinnedAddress
pin is_ip = map (λ address. record { address = address; family = is_ip address })

abbrev pub matching_family : ℕ → List PinnedAddress → List PinnedAddress
matching_family family = filter (λ entry. family == 0 || entry.family == family)

abbrev pub answer_with : Bool → List PinnedAddress → LookupAnswer
answer_with all [] = not_found
answer_with all (first ∷ matching) = if all then all_of (first ∷ matching) else one_of first

unfoldable pub pinned_lookup :
    (Text → ℕ) → Text → List Text → Text → FamilyOption → Bool → LookupAnswer
unfolding to_lower_case text_eq
pinned_lookup is_ip expected_hostname addresses hostname family all =
    if text_eq (to_lower_case hostname) (to_lower_case expected_hostname)
    then answer_with all (matching_family (requested_family family) (pin is_ip addresses))
    else unpinned_lookup
