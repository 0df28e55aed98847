-- ===== src/Net/Tests.antt =====
-- Runs of packages/core/src/net at concrete inputs.
use verif_ai.Common.{
  ℕ, ◌+◌, ◌*◌, ◌<◌, ◌≡◌, ◌≢◌, ◌↔◌, ◌⊎◌, refl, true, false, Option, none, some, List, [], ◌∷◌, Text,
  codes, text_eq, arith,
}
use verif_ai.Net.Address.Parse.{parse_ipv4, parse_ipv6}
use verif_ai.Net.Address.Ranges.{
  ipv4_rule, ipv6_rule, ipv4_table, ipv6_table, ipv4_rules, ipv6_rules, load, class_of,
  cloud_metadata, loopback, public, scoped, not_an_address, deprecated, unique_local, reserved,
  private_scope, forbidden,
}
use verif_ai.Net.Address.Classify.{classify_ipv4, classify_ipv6, classify_address, before_zone}
use verif_ai.Net.Address.Canonical.{dotted, parse_ipv4_iff}
use verif_ai.Net.Address.Embedded.{mapped, classify_address-mapped, classify_ipv6_embedded}
use verif_ai.Net.Address.Blocks.{IsPrivate, IsForbidden, scope_blocks}
use verif_ai.Net.Guard.{
  TargetPolicy, admitted, refused, refused_private, refused_forbidden, check_addresses,
}
use verif_ai.Net.Guard.Strictest.{some_forbidden, all_admitted, check_addresses_strictest}
use verif_ai.Net.TargetUrl.{
  Url, TargetUrl, ok, problem, blocked_address, parse_target_url, bare_hostname, literal_of,
  supported_protocol, http,
}
use verif_ai.Net.TargetUrl.Admission.{Admissible, parse_target_url_iff}
use verif_ai.Net.TargetUrl.Hostname.{ReadAs}

-- No entry of the two tables throws as the module loads.
ipv4_table_loads : load ipv4_rule ipv4_table ≡ some ipv4_rules
unfolding load ipv4_rule ipv4_rules
ipv4_table_loads = refl

ipv6_table_loads : load ipv6_rule ipv6_table ≡ some ipv6_rules
unfolding load ipv6_rule ipv6_rules
ipv6_table_loads = refl

octal_is_refused : parse_ipv4 (codes "010.0.0.1") ≡ none
unfolding parse_ipv4
octal_is_refused = refl

literals :
    (classify_address (codes "100.100.100.200") ≡ class_of cloud_metadata)
    × (classify_address (codes "::ffff:169.254.169.254") ≡ class_of cloud_metadata)
    × (classify_address (codes "64:ff9b::a9fe:a9fe") ≡ class_of cloud_metadata)
    × (classify_address (codes "::1") ≡ class_of loopback)
    × (classify_address (codes "FD12:3456::1") ≡ class_of unique_local)
    × (classify_address (codes "fe80::1%eth0") ≡ class_of scoped)
    × (classify_address (codes "2606:4700::1111") ≡ class_of public)
    × (classify_address (codes "::1.2.3.4") ≡ class_of deprecated)
    × (classify_address (codes "4000::") ≡ class_of reserved)
    × (classify_address (codes "1::2::3") ≡ class_of not_an_address)
    × (classify_address (codes "localhost") ≡ class_of not_an_address)
unfolding classify_address classify_ipv4 classify_ipv6 parse_ipv4 parse_ipv6 before_zone
literals = (refl, refl, refl, refl, refl, refl, refl, refl, refl, refl, refl)

abbrev metadata : ℕ
metadata = ((169 * 256 + 254) * 256 + 169) * 256 + 254

parse_ipv4_iff_example :
    (parse_ipv4 (codes "010.0.0.1") ≡ some 0xa000001)
    ↔ ((0xa000001 < 0x100000000) × (codes "010.0.0.1" ≡ dotted 0xa000001))
parse_ipv4_iff_example = parse_ipv4_iff (codes "010.0.0.1") 0xa000001

classify_ipv6_embedded_example :
    (classify_ipv6 (0 ∷ 0 ∷ 0 ∷ 0 ∷ 0 ∷ 0xffff ∷ 0xa9fe ∷ 0xa9fe ∷ [])
      ≡ classify_ipv4 (0xa9fe * 0x10000 + 0xa9fe))
    × (classify_ipv6 (0x64 ∷ 0xff9b ∷ 0 ∷ 0 ∷ 0 ∷ 0 ∷ 0xa9fe ∷ 0xa9fe ∷ [])
        ≡ classify_ipv4 (0xa9fe * 0x10000 + 0xa9fe))
    × (classify_ipv6 (0x2002 ∷ 0xa9fe ∷ 0xa9fe ∷ 1 ∷ 2 ∷ 3 ∷ 4 ∷ 5 ∷ [])
        ≡ classify_ipv4 (0xa9fe * 0x10000 + 0xa9fe))
classify_ipv6_embedded_example = classify_ipv6_embedded 0xa9fe 0xa9fe 1 2 3 4 5

classify_address-mapped_example :
    (classify_address (mapped metadata) ≡ classify_ipv4 metadata)
    × (classify_address (dotted metadata) ≡ classify_ipv4 metadata)
classify_address-mapped_example = classify_address-mapped metadata (omega arith)

scope_blocks_example :
    (((classify_ipv4 metadata).scope ≡ private_scope) ↔ IsPrivate metadata)
    × (((classify_ipv4 metadata).scope ≡ forbidden) ↔ IsForbidden metadata)
scope_blocks_example = scope_blocks metadata (omega arith)

abbrev lenient : TargetPolicy
lenient = record { allow_private_targets = true }

abbrev rebound : List Text
rebound = codes "10.0.0.7" ∷ codes "169.254.169.254" ∷ []

check_addresses_strictest_example :
    ((check_addresses rebound lenient ≡ admitted)
      ↔ ((rebound ≢ []) × (all_admitted lenient rebound ≡ true)))
    × ((check_addresses rebound lenient ≡ refused refused_forbidden)
        ↔ ((rebound ≡ []) ⊎ (some_forbidden rebound ≡ true)))
    × ((check_addresses rebound lenient ≡ refused refused_private) ↔ (
        (rebound ≢ []) × (some_forbidden rebound ≡ false) × (all_admitted lenient rebound ≡ false)))
check_addresses_strictest_example = check_addresses_strictest rebound lenient

abbrev local_url : Url
local_url = record {
  protocol = codes "http:";
  username = [];
  password = [];
  hostname = codes "127.0.0.1";
  host = codes "127.0.0.1:4000";
  port = codes "4000";
  origin = codes "http://127.0.0.1:4000";
  pathname = codes "/v1";
  search = [];
}

abbrev local_target : TargetUrl
local_target = record {
  href = codes "http://127.0.0.1:4000/v1";
  protocol = http;
  hostname = codes "127.0.0.1";
  host = codes "127.0.0.1:4000";
  port = 4000;
  path = codes "/v1";
  address_literal = some (class_of loopback);
}

abbrev parse_local : Text → Option Url
parse_local input = some local_url

local_runs : parse_target_url parse_local (codes "http://127.1:4000/v1") lenient ≡ ok local_target
unfolding text_eq parse_target_url supported_protocol bare_hostname literal_of classify_address
    classify_ipv4 parse_ipv4
local_runs = refl

-- Where private targets are not allowed, the same input is refused.
local_is_refused :
    parse_target_url parse_local
      (codes "http://127.1:4000/v1")
      (record { allow_private_targets = false })
    ≡ problem (blocked_address refused_private)
unfolding text_eq parse_target_url supported_protocol bare_hostname literal_of classify_address
    classify_ipv4 parse_ipv4
local_is_refused = refl

parse_target_url_iff_example :
    ((t : TargetUrl) × (parse_target_url parse_local (codes "http://127.1:4000/v1") lenient ≡ ok t)
      × ReadAs local_url.hostname t.hostname t.address_literal)
    ↔ Admissible local_url lenient
parse_target_url_iff_example =
    parse_target_url_iff parse_local (codes "http://127.1:4000/v1") lenient local_url refl
