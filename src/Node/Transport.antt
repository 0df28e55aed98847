-- ===== src/Node/Transport.antt =====
-- packages/node/src/transport.ts: the preparation of a request, the resolution of its target and what
-- goes out. `new URL` is a parameter, and what the resolver and the looks at the signal came to. A
-- method and a body are right by their types, and a time is a whole number of milliseconds.
pub mod Dials
use verif_ai.Common.{
  ℕ, ◌-◌, ◌^◌, Bool, true, false, ◌&&◌, ◌||◌, not, Option, none, some, List, [], ◌∷◌, ◌++◌, Text,
  codes, leb, length, if◌then◌else◌,
}
use verif_ai.Transport.Headers.{HeaderPair, HeaderError, assert_sendable_headers, header_value}
use verif_ai.Net.Guard.{
  TargetPolicy, RefusedScope, AddressVerdict, admitted, refused, check_addresses,
}
use verif_ai.Net.TargetUrl.{
  Url, TargetUrl, Protocol, http, https, TargetUrlProblem, not_a_url, unsupported_scheme,
  embedded_credentials, blocked_address, TargetUrlResult, ok, problem, parse_target_url,
}
use verif_ai.Net.Address.Ranges.{AddressClass}
use verif_ai.Runner.Dilution.{unobserved}
use verif_ai.Runner.Session.{FailureKind, blocked_target, dns_failure, aborted_send}
use verif_ai.Node.Body.{Bytes}
use verif_ai.Node.Decimal.{decimal}
use verif_ai.Node.Exchange.{
  Cause, kind_of, NodeFailure, transport_failure, NodeResult, failure_of, NetEvent, ExchangeState,
  new_exchange, exchange_on,
}

pub data HttpMethod : Type 0 where
  get head post put patch delete options : HttpMethod

pub record TransportRequest : Type 0 where
  pub method : HttpMethod
  pub url : Text
  pub headers : List HeaderPair
  pub body : Option Bytes
  pub timeout_ms : Option ℕ
  pub max_response_bytes : Option ℕ

abbrev pub default_timeout_ms : ℕ
default_timeout_ms = 60000

abbrev pub default_max_response_bytes : ℕ
default_max_response_bytes = 8388608

abbrev pub max_timer_ms : ℕ
max_timer_ms = 2147483647

-- Number.MAX_SAFE_INTEGER
abbrev pub max_safe_integer : ℕ
max_safe_integer = 9007199254740991

abbrev pub given_or : ℕ → Option ℕ → ℕ
given_or default none = default
given_or default (some given) = given

-- The TypeErrors of `prepare`.
pub data PrepareError : Type 0 where
  unsendable : HeaderError → PrepareError
  bad_timeout bad_max_response_bytes : PrepareError
  url_refused : TargetUrlProblem → PrepareError

pub data PlanTarget : Type 0 where
  reachable : TargetUrl → PlanTarget
  blocked : RefusedScope → PlanTarget

pub record SendPlan : Type 0 where
  pub target : PlanTarget
  pub timeout_ms : ℕ
  pub max_response_bytes : ℕ

pub data Prepared : Type 0 where
  prepared : SendPlan → Prepared
  malformed : PrepareError → Prepared

abbrev pub with_target : ℕ → ℕ → TargetUrlResult → Prepared
with_target timeout max_bytes (ok target) =
    prepared
      (record { target = reachable target; timeout_ms = timeout; max_response_bytes = max_bytes })
with_target timeout max_bytes (problem (blocked_address scope)) =
    prepared
      (record { target = blocked scope; timeout_ms = timeout; max_response_bytes = max_bytes })
with_target timeout max_bytes (problem not_a_url) = malformed (url_refused not_a_url)
with_target timeout max_bytes (problem unsupported_scheme) =
    malformed (url_refused unsupported_scheme)
with_target timeout max_bytes (problem embedded_credentials) =
    malformed (url_refused embedded_credentials)

unfoldable pub prepare : (Text → Option Url) → TransportRequest → TargetPolicy → Prepared
unfolding parse_target_url assert_sendable_headers
prepare parse request policy =
    let timeout = given_or default_timeout_ms request.timeout_ms in
    let max_bytes = given_or default_max_response_bytes request.max_response_bytes in
    elim (assert_sendable_headers request.headers) [
      | some error ↦ malformed (unsendable error)
      | none ↦
          if not (leb 1 timeout && leb timeout max_timer_ms)
          then malformed bad_timeout
          else if not (leb max_bytes max_safe_integer)
          then malformed bad_max_response_bytes
          else with_target timeout max_bytes (parse_target_url parse request.url policy)
    ]

-- How the race of the resolver and the signal ends: with an answer that is a list of texts, or with
-- another one, with an error, or with the signal, and the reason that is then found.
pub data Race : Type 0 where
  resolved_to : List Text → Race
  no_addresses resolver_failed : Race
  stopped : Option Cause → Race

pub data Resolution : Type 0 where
  resolved : List Text → Resolution
  unresolved : FailureKind → Resolution

abbrev pub reason_kind : Option Cause → FailureKind
reason_kind none = aborted_send
reason_kind (some cause) = kind_of cause

abbrev pub race_end : Race → Resolution
race_end (resolved_to []) = unresolved dns_failure
race_end (resolved_to (address ∷ addresses)) = resolved (address ∷ addresses)
race_end no_addresses = unresolved dns_failure
race_end resolver_failed = unresolved dns_failure
race_end (stopped reason) = unresolved (reason_kind reason)

abbrev pub resolve_target : Text → Option AddressClass → Race → Resolution
resolve_target hostname (some literal) race = resolved (hostname ∷ [])
resolve_target hostname none race = race_end race

-- What `send` comes to before an exchange, or the exchange that it starts.
pub data Sending : Type 0 where
  throws : PrepareError → Sending
  refuses : NodeFailure → Sending
  exchanges : SendPlan → TargetUrl → List Text → Sending

-- The looks and the clock of a `send`.
pub record Outside : Type 0 where
  pub early : Option Cause
  pub race : Race
  pub started_ms : ℕ
  pub refused_ms : ℕ

abbrev pub refuse : Outside → FailureKind → Option RefusedScope → Sending
refuse outside kind scope =
    refuses (transport_failure kind false unobserved outside.started_ms outside.refused_ms scope)

abbrev pub with_verdict : Outside → SendPlan → TargetUrl → List Text → AddressVerdict → Sending
with_verdict outside plan target addresses admitted = exchanges plan target addresses
with_verdict outside plan target addresses (refused scope) =
    refuse outside blocked_target (some scope)

abbrev pub with_resolution : Outside → SendPlan → TargetUrl → TargetPolicy → Resolution → Sending
with_resolution outside plan target policy (unresolved kind) = refuse outside kind none
with_resolution outside plan target policy (resolved addresses) =
    with_verdict outside plan target addresses (check_addresses addresses policy)

abbrev pub send_to : Outside → SendPlan → TargetUrl → TargetPolicy → Option Cause → Sending
send_to outside plan target policy (some cause) = refuse outside (kind_of cause) none
send_to outside plan target policy none =
    with_resolution outside plan target policy
      (resolve_target target.hostname target.address_literal outside.race)

abbrev pub send_plan : Outside → SendPlan → TargetPolicy → PlanTarget → Sending
send_plan outside plan policy (blocked scope) = refuse outside blocked_target (some scope)
send_plan outside plan policy (reachable target) = send_to outside plan target policy outside.early

abbrev pub send_prepared : Outside → TargetPolicy → Prepared → Sending
send_prepared outside policy (malformed error) = throws error
send_prepared outside policy (prepared plan) = send_plan outside plan policy plan.target

unfoldable pub send_request :
    (Text → Option Url) → TransportRequest → TargetPolicy → Outside → Sending
unfolding prepare check_addresses
send_request parse request policy outside =
    send_prepared outside policy (prepare parse request policy)

-- Whether a method frames an absent body as one of no bytes: BODY_METHODS.
abbrev pub has_body : HttpMethod → Bool
has_body post = true
has_body put = true
has_body patch = true
has_body _ = false

abbrev pub body_length : HttpMethod → Option Bytes → Option ℕ
body_length method (some body) = some (length body)
body_length method none = if has_body method then some 0 else none

abbrev pub user_agent_line : Option Text → Option Text → List Text
user_agent_line none own = []
user_agent_line (some agent) none = codes "User-Agent" ∷ agent ∷ []
user_agent_line (some agent) (some own) = []

abbrev pub length_line : Option ℕ → List Text
length_line none = []
length_line (some count) = codes "Content-Length" ∷ decimal count ∷ []

unfoldable pub flat_pairs : List HeaderPair → List Text
flat_pairs [] = []
flat_pairs (h ∷ headers) = h.name ∷ h.value ∷ flat_pairs headers

unfoldable pub wire_headers : TransportRequest → TargetUrl → Option Text → List Text
unfolding flat_pairs header_value decimal
wire_headers request target user_agent =
    codes "Host"
    ∷ target.host
    ∷ (flat_pairs request.headers
        ++ (user_agent_line user_agent (header_value request.headers (codes "user-agent"))
            ++ (length_line (body_length request.method request.body)
                ++ codes "Connection" ∷ codes "close" ∷ [])))

-- What `createNodeTransport` throws on, of the agent that it is given.
pub data AgentError : Type 0 where
  empty_agent : AgentError
  unsendable_agent : HeaderError → AgentError

abbrev pub sendable_agent : Option HeaderError → Option AgentError
sendable_agent none = none
sendable_agent (some error) = some (unsendable_agent error)

unfoldable pub check_user_agent : Option Text → Option AgentError
unfolding assert_sendable_headers
check_user_agent none = none
check_user_agent (some []) = some empty_agent
check_user_agent (some (c ∷ agent)) =
    sendable_agent
      (assert_sendable_headers (record { name = codes "User-Agent"; value = c ∷ agent } ∷ []))

-- The exchange that a send starts, on the events that come.
abbrev pub is_secure : Protocol → Bool
is_secure http = false
is_secure https = true

unfoldable pub run_exchange : SendPlan → TargetUrl → ℕ → List (ℕ × NetEvent) → Option NodeResult
unfolding exchange_on
run_exchange plan target started events =
    (exchange_on (is_secure target.protocol) plan.max_response_bytes started events
      new_exchange).result
