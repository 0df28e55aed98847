-- ===== src/Net/Address/Classify.antt =====
-- The classification of an IP literal: packages/core/src/net/address.ts.
use verif_ai.Common.{
  ℕ, zero, suc, ◌+◌, ◌-◌, ◌*◌, ◌/◌, ◌^◌, Bool, true, false, Option, none, some, List, [], ◌∷◌, Text,
  get_or, ◌==◌, if◌then◌else◌,
}
use verif_ai.Net.Address.Parse.{parse_ipv4, parse_ipv6}
use verif_ai.Net.Address.Ranges.{
  AddressClass, reserved, scoped, not_an_address, public, class_of, Ipv4Rule, Ipv6Rule, Ipv6Outcome,
  concludes, embedded_at, ipv4_rules, ipv6_rules,
}

-- One turn of the loop of `classifyIpv4`.
unfoldable pub in_rule : ℕ → Ipv4Rule → Bool
in_rule value rule = let size = 2 ^ (32 - rule.bits) in value / size == rule.base / size

unfoldable pub first_ipv4 : ℕ → List Ipv4Rule → AddressClass
unfolding in_rule
first_ipv4 value [] = class_of public
first_ipv4 value (rule ∷ rules) =
    let rest = first_ipv4 value rules in if in_rule value rule then class_of rule.range else rest

unfoldable pub classify_ipv4 : ℕ → AddressClass
unfolding first_ipv4 ipv4_rules
classify_ipv4 value = first_ipv4 value ipv4_rules

-- `group >> shift`, on a group of 16 bits.
abbrev pub shr : ℕ → ℕ → ℕ
shr group shift = group / 2 ^ shift

-- The loop of `hasPrefix` from index `at`, with a bound on its turns. Each turn takes 16 from what
-- remains, so as many turns as there are bits are enough.
unfoldable pub prefix_from : ℕ → ℕ → ℕ → List ℕ → List ℕ → Bool
prefix_from zero remaining at groups prefix = true
prefix_from (suc turns) zero at groups prefix = true
prefix_from (suc turns) (suc r) at groups prefix =
    let shift = 16 - suc r in
    let rest = prefix_from turns (suc r - 16) (at + 1) groups prefix in
    if shr (get_or groups at 0) shift == shr (get_or prefix at 0) shift then rest else false

unfoldable pub has_prefix : List ℕ → Ipv6Rule → Bool
unfolding prefix_from
has_prefix groups rule = prefix_from rule.bits rule.bits 0 groups rule.prefix

-- IPV6_RULES.find(...)
unfoldable pub find_rule : List ℕ → List Ipv6Rule → Option Ipv6Rule
unfolding has_prefix
find_rule groups [] = none
find_rule groups (rule ∷ rules) =
    let rest = find_rule groups rules in if has_prefix groups rule then some rule else rest

unfoldable pub conclude : List ℕ → Ipv6Outcome → AddressClass
unfolding classify_ipv4
conclude groups (concludes range) = class_of range
conclude groups (embedded_at at) =
    classify_ipv4 (get_or groups at 0 * 0x10000 + get_or groups (at + 1) 0)

unfoldable pub classify_ipv6 : List ℕ → AddressClass
unfolding find_rule conclude ipv6_rules
classify_ipv6 groups = elim (find_rule groups ipv6_rules) [
  | none ↦ class_of reserved
  | some rule ↦ conclude groups rule.outcome
]

-- The text before the first `%`, where there is one.
unfoldable pub before_zone : Text → Option Text
before_zone [] = none
before_zone (x ∷ xs) =
    let rest = before_zone xs in
    if x == b'%' then some [] else elim rest [ none ↦ none | some ys ↦ some (x ∷ ys) ]

unfoldable pub classify_zoned : Text → AddressClass
classify_zoned text = elim (parse_ipv6 text) [
  | none ↦ class_of not_an_address
  | some _ ↦ class_of scoped
]

unfoldable pub classify_plain : Text → AddressClass
classify_plain text = elim (parse_ipv6 text) [
  | none ↦ class_of not_an_address
  | some groups ↦ classify_ipv6 groups
]

unfoldable pub classify_address : Text → AddressClass
unfolding classify_zoned classify_plain
classify_address address = elim (parse_ipv4 address) [
  | some ipv4 ↦ classify_ipv4 ipv4
  | none ↦ elim (before_zone address) [
    | some zoneless ↦ classify_zoned zoneless
    | none ↦ classify_plain address
  ]
]
