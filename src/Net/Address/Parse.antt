-- ===== src/Net/Address/Parse.antt =====
-- The parsing half of packages/core/src/net/address.ts: dotted quads, and groups of IPv6.
use verif_ai.Common.{
  ℕ, ◌+◌, ◌-◌, ◌*◌, ◌/◌, ◌%◌, Bool, true, false, ◌&&◌, ◌||◌, Option, none, some, List, [], ◌∷◌,
  ◌++◌, Text, text_eq, includes, split, split_double, between, is_digit, is_hex, decimal_from,
  hex_from, all, length, replicate, leb, ltb, ◌==◌, if◌then◌else◌,
}

-- IPV4_OCTET: 0-255 with no leading zero.
unfoldable pub is_octet : Text → Bool
is_octet (d ∷ []) = is_digit d
is_octet (a ∷ d ∷ []) = between b'1' b'9' a && is_digit d
is_octet (a ∷ b ∷ d ∷ []) =
    (a == b'2' && b == b'5' && between b'0' b'5' d)
    || (a == b'2' && between b'0' b'4' b && is_digit d)
    || (a == b'1' && is_digit b && is_digit d)
is_octet _ = false

-- HEX_GROUP: one to four hexadecimal digits.
unfoldable pub is_hex_group : Text → Bool
is_hex_group text = leb 1 (length text) && leb (length text) 4 && all is_hex text

abbrev pub ipv6_groups : ℕ
ipv6_groups = 8

-- The loop of `parseIpv4` over the octets.
unfoldable pub octets_from : ℕ → List Text → Option ℕ
octets_from value [] = some value
octets_from value (octet ∷ octets) =
    if is_octet octet then octets_from (value * 256 + decimal_from 0 octet) octets else none

unfoldable pub parse_ipv4 : Text → Option ℕ
unfolding octets_from split is_octet
parse_ipv4 text =
    let octets = split b'.' text in if length octets == 4 then octets_from 0 octets else none

abbrev is_last : List Text → Bool
is_last [] = true
is_last (_ ∷ _) = false

-- The loop of `parseGroups`, with the groups read so far.
groups_from : Bool → List ℕ → List Text → Option (List ℕ)
groups_from allow_ipv4_tail groups [] = some groups
groups_from allow_ipv4_tail groups (piece ∷ rest) =
    elim (allow_ipv4_tail && is_last rest && includes b'.' piece) [
      | true ↦ elim (parse_ipv4 piece) [
        | none ↦ none
        | some ipv4 ↦
            groups_from allow_ipv4_tail (groups ++ (ipv4 / 0x10000) ∷ (ipv4 % 0x10000) ∷ []) rest
      ]
      | false ↦ elim (is_hex_group piece) [
        | true ↦ groups_from allow_ipv4_tail (groups ++ hex_from 0 piece ∷ []) rest
        | false ↦ none
      ]
    ]

unfoldable pub parse_groups : List Text → Bool → Option (List ℕ)
unfolding groups_from is_hex_group
parse_groups pieces allow_ipv4_tail = groups_from allow_ipv4_tail [] pieces

unfoldable pub split_pieces : Text → List Text
unfolding split text_eq
split_pieces text = if text_eq text [] then [] else split b':' text

-- `groups?.length === IPV6_GROUPS ? groups : undefined`
eight : Option (List ℕ) → Option (List ℕ)
eight none = none
eight (some groups) = if length groups == ipv6_groups then some groups else none

-- `::` stands for at least one group of zeros.
fill : Option (List ℕ) → Option (List ℕ) → Option (List ℕ)
fill none tail = none
fill (some head) none = none
fill (some head) (some tail) =
    if ltb (length head + length tail) ipv6_groups
    then some (head ++ replicate (ipv6_groups - length head - length tail) 0 ++ tail)
    else none

of_halves : Text → List Text → Option (List ℕ)
of_halves text (_ ∷ []) = eight (parse_groups (split_pieces text) true)
of_halves text (head ∷ tail ∷ []) =
    fill (parse_groups (split_pieces head) false) (parse_groups (split_pieces tail) true)
of_halves text _ = none

unfoldable pub parse_ipv6 : Text → Option (List ℕ)
unfolding of_halves eight fill parse_groups split_pieces split_double
parse_ipv6 text = of_halves text (split_double b':' text)
