-- ===== src/Net/Address/Ranges.antt =====
-- The range tables of packages/core/src/net/address.ts, and the readings of an address by them.
use verif_ai.Common.{
  ℕ, Bool, true, false, Option, none, some, List, [], ◌∷◌, Text, String, codes, split, is_digit,
  decimal_from, all, leb, if◌then◌else◌,
}
use verif_ai.Net.Address.Parse.{parse_ipv4, parse_ipv6}

pub data AddressScope : Type 0 where
  public_scope private_scope forbidden : AddressScope

pub data AddressRange : Type 0 where
  public loopback private shared_address benchmarking unique_local unspecified this_network
        link_local cloud_metadata protocol_assignments documentation deprecated multicast reserved
        discard nat64_local scoped not_an_address :
      AddressRange

pub record AddressClass : Type 0 where
  pub range : AddressRange
  pub scope : AddressScope

-- PRIVATE_RANGES, and the scope that CLASSES computes for a range.
abbrev pub is_private_range : AddressRange → Bool
is_private_range loopback = true
is_private_range private = true
is_private_range shared_address = true
is_private_range benchmarking = true
is_private_range unique_local = true
is_private_range _ = false

abbrev pub scope_of : AddressRange → AddressScope
scope_of public = public_scope
scope_of range = if is_private_range range then private_scope else forbidden

abbrev pub class_of : AddressRange → AddressClass
class_of range = record { range = range; scope = scope_of range }

pub record Cidr : Type 0 where
  pub address : Text
  pub bits : ℕ

-- `Number(bits)` where it is a non-negative integer written in digits, as the tables write it.
number : Text → Option ℕ
number [] = none
number (d ∷ ds) = if all is_digit (d ∷ ds) then some (decimal_from 0 (d ∷ ds)) else none

-- `none` where the source throws at module load.
cidr_of : List Text → Option Cidr
cidr_of (address ∷ bits ∷ []) = elim (number bits) [
  | none ↦ none
  | some prefix ↦ some (record { address = address; bits = prefix })
]
cidr_of _ = none

cidr : Text → Option Cidr
unfolding cidr_of number split
cidr text = cidr_of (split b'/' text)

pub record Ipv4Rule : Type 0 where
  pub base : ℕ
  pub bits : ℕ
  pub range : AddressRange

unfoldable pub ipv4_rule : Text → AddressRange → Option Ipv4Rule
unfolding cidr parse_ipv4
ipv4_rule text range = elim (cidr text) [
  | none ↦ none
  | some c ↦ elim (parse_ipv4 c.address) [
    | none ↦ none
    | some base ↦
        if leb c.bits 32 then some (record { base = base; bits = c.bits; range = range }) else none
  ]
]

-- An IPv6 rule concludes a range, or reads the IPv4 embedded at a group offset.
pub data Ipv6Outcome : Type 0 where
  concludes : AddressRange → Ipv6Outcome
  embedded_at : ℕ → Ipv6Outcome

pub record Ipv6Rule : Type 0 where
  pub prefix : List ℕ
  pub bits : ℕ
  pub outcome : Ipv6Outcome

unfoldable pub ipv6_rule : Text → Ipv6Outcome → Option Ipv6Rule
unfolding cidr parse_ipv6
ipv6_rule text outcome = elim (cidr text) [
  | none ↦ none
  | some c ↦ elim (parse_ipv6 c.address) [
    | none ↦ none
    | some prefix ↦
        if leb c.bits 128
        then some (record { prefix = prefix; bits = c.bits; outcome = outcome })
        else none
  ]
]

-- A table of rules, built as its module loads: `none` where an entry throws.
unfoldable pub load : {K R : Type 0} → (Text → K → Option R) → List (String × K) → Option (List R)
load rule [] = some []
load rule ((text, key) ∷ entries) = elim (rule (codes text) key) [
  | none ↦ none
  | some r ↦ elim (load rule entries) [ none ↦ none | some rs ↦ some (r ∷ rs) ]
]

abbrev pub ipv4_table : List (String × AddressRange)
ipv4_table =
    ("169.254.169.254/32", cloud_metadata)
    ∷ ("100.100.100.200/32", cloud_metadata)
    ∷ ("192.0.0.192/32", cloud_metadata)
    ∷ ("0.0.0.0/8", this_network)
    ∷ ("10.0.0.0/8", private)
    ∷ ("100.64.0.0/10", shared_address)
    ∷ ("127.0.0.0/8", loopback)
    ∷ ("169.254.0.0/16", link_local)
    ∷ ("172.16.0.0/12", private)
    ∷ ("192.0.0.0/24", protocol_assignments)
    ∷ ("192.0.2.0/24", documentation)
    ∷ ("192.88.99.0/24", deprecated)
    ∷ ("192.168.0.0/16", private)
    ∷ ("198.18.0.0/15", benchmarking)
    ∷ ("198.51.100.0/24", documentation)
    ∷ ("203.0.113.0/24", documentation)
    ∷ ("224.0.0.0/4", multicast)
    ∷ ("240.0.0.0/4", reserved)
    ∷ []

abbrev last_32_bits : Ipv6Outcome
last_32_bits = embedded_at 6

abbrev pub ipv6_table : List (String × Ipv6Outcome)
ipv6_table =
    ("::/128", concludes unspecified)
    ∷ ("::1/128", concludes loopback)
    ∷ ("::ffff:0:0/96", last_32_bits)
    ∷ ("::/96", concludes deprecated)
    ∷ ("64:ff9b::/96", last_32_bits)
    ∷ ("64:ff9b:1::/48", concludes nat64_local)
    ∷ ("100::/64", concludes discard)
    ∷ ("2001:db8::/32", concludes documentation)
    ∷ ("2001::/23", concludes protocol_assignments)
    ∷ ("2002::/16", embedded_at 1)
    ∷ ("3fff::/20", concludes documentation)
    ∷ ("2000::/3", concludes public)
    ∷ ("fd00:ec2::254/128", concludes cloud_metadata)
    ∷ ("fc00::/7", concludes unique_local)
    ∷ ("fe80::/10", concludes link_local)
    ∷ ("fec0::/10", concludes deprecated)
    ∷ ("ff00::/8", concludes multicast)
    ∷ []

or_empty : {R : Type 0} → Option (List R) → List R
or_empty none = []
or_empty (some rules) = rules

unfoldable pub ipv4_rules : List Ipv4Rule
unfolding or_empty load ipv4_rule
ipv4_rules = or_empty (load ipv4_rule ipv4_table)

unfoldable pub ipv6_rules : List Ipv6Rule
unfolding or_empty load ipv6_rule
ipv6_rules = or_empty (load ipv6_rule ipv6_table)
