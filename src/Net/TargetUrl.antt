-- ===== src/Net/TargetUrl.antt =====
-- packages/core/src/net/target-url.ts: the endpoint URL a buyer typed, reduced to what the
-- transport may act on. The WHATWG parser is the platform's: what it returns is a parameter.
pub mod Hostname
pub mod Admission
use verif_ai.Common.{
  ℕ, Bool, true, false, ◌&&◌, ◌||◌, Option, none, some, List, [], ◌∷◌, ◌++◌, Text, codes, text_eq,
  split, is_digit, decimal_from, all, length, leb, ◌==◌, not, if◌then◌else◌,
}
use verif_ai.Net.Address.Ranges.{AddressClass, AddressScope, public_scope, private_scope, forbidden}
use verif_ai.Net.Address.Classify.{classify_address}
use verif_ai.Net.Guard.{
  TargetPolicy, RefusedScope, refused_private, refused_forbidden, admits_scope,
}

-- The parts of the platform's `URL` that the source reads.
pub record Url : Type 0 where
  pub protocol : Text
  pub username : Text
  pub password : Text
  pub hostname : Text
  pub host : Text
  pub port : Text
  pub origin : Text
  pub pathname : Text
  pub search : Text

pub data Protocol : Type 0 where
  http https : Protocol

pub record TargetUrl : Type 0 where
  pub href : Text
  pub protocol : Protocol
  pub hostname : Text
  pub host : Text
  pub port : ℕ
  pub path : Text
  pub address_literal : Option AddressClass

pub data TargetUrlProblem : Type 0 where
  not_a_url unsupported_scheme embedded_credentials : TargetUrlProblem
  blocked_address : RefusedScope → TargetUrlProblem

pub data TargetUrlResult : Type 0 where
  ok : TargetUrl → TargetUrlResult
  problem : TargetUrlProblem → TargetUrlResult

-- `isSupportedProtocol`, with the key of DEFAULT_PORTS that it finds.
unfoldable pub supported_protocol : Text → Option Protocol
supported_protocol protocol =
    if text_eq protocol (codes "http:")
    then some http
    else if text_eq protocol (codes "https:")
    then some https
    else none

abbrev pub default_port : Protocol → ℕ
default_port http = 80
default_port https = 443

-- `hostname.slice(1, -1)` of a text that starts with a bracket and ends with one.
abbrev pub init : Text → Text
init [] = []
init (x ∷ []) = []
init (x ∷ y ∷ r) = x ∷ init (y ∷ r)

abbrev pub ends_with : ℕ → Text → Bool
ends_with c [] = false
ends_with c (x ∷ []) = x == c
ends_with c (x ∷ y ∷ r) = ends_with c (y ∷ r)

abbrev pub is_bracketed : Text → Bool
is_bracketed [] = false
is_bracketed (x ∷ r) = x == b'[' && ends_with b']' (x ∷ r)

abbrev pub unbracket : Text → Text
unbracket [] = []
unbracket (_ ∷ r) = init r

unfoldable pub bare_hostname : Text → Text × Bool
bare_hostname hostname =
    if is_bracketed hostname then (unbracket hostname, true) else (hostname, false)

abbrev pub digits : Text → Bool
digits text = leb 1 (length text) && all is_digit text

-- CANONICAL_IPV4: four runs of digits with dots between.
unfoldable pub is_canonical_ipv4 : Text → Bool
is_canonical_ipv4 text = let runs = split b'.' text in length runs == 4 && all digits runs

abbrev pub refused_scope : AddressScope → RefusedScope
refused_scope private_scope = refused_private
refused_scope _ = refused_forbidden

-- The classification, when the hostname is an address literal.
unfoldable pub literal_of : Text × Bool → Option AddressClass
unfolding is_canonical_ipv4
literal_of (bare, is_ipv6) =
    if is_ipv6 || is_canonical_ipv4 bare then some (classify_address bare) else none

abbrev pub target_of : Url → Protocol → Text → Option AddressClass → TargetUrl
target_of url protocol bare literal = record {
  href = url.origin ++ (url.pathname ++ url.search);
  protocol = protocol;
  hostname = bare;
  host = url.host;
  port = if text_eq url.port [] then default_port protocol else decimal_from 0 url.port;
  path = url.pathname ++ url.search;
  address_literal = literal;
}

unfoldable pub admit : Url → Protocol → Text → Option AddressClass → TargetPolicy → TargetUrlResult
admit url protocol bare none policy = ok (target_of url protocol bare none)
admit url protocol bare (some literal) policy =
    if admits_scope literal.scope policy
    then ok (target_of url protocol bare (some literal))
    else problem (blocked_address (refused_scope literal.scope))

-- From the point where `URL` has parsed the input.
unfoldable pub check_url : Url → TargetPolicy → TargetUrlResult
unfolding admit
check_url url policy = elim (supported_protocol url.protocol) [
  | none ↦ problem unsupported_scheme
  | some protocol ↦
      if not (text_eq url.username []) || not (text_eq url.password [])
      then problem embedded_credentials
      else if text_eq url.hostname []
      then problem not_a_url
      else admit url protocol (bare_hostname url.hostname).0
          (literal_of (bare_hostname url.hostname)) policy
]

-- `parse` is `new URL(input)`, with `none` where the constructor throws.
unfoldable pub parse_target_url : (Text → Option Url) → Text → TargetPolicy → TargetUrlResult
unfolding check_url
parse_target_url parse input policy = elim (parse input) [
  | none ↦ problem not_a_url
  | some url ↦ check_url url policy
]
