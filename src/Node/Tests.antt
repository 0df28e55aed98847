-- ===== src/Node/Tests.antt =====
-- Runs of the reading of packages/node/src/body.ts on small bodies, and the witnesses.
use verif_ai.Common.{
  ℕ, split, Option, none, text_eq, Text, ◌≢◌, ◌⊎◌, ltb, map, ◌≤◌, ◌≡◌, refl, some, List, [], ◌∷◌,
  ◌++◌, codes, true, false, length,
}
use verif_ai.Transport.Headers.{to_lower_case}
use verif_ai.Net.TargetUrl.{Url, TargetUrl, https, supported_protocol, bare_hostname, literal_of}
use verif_ai.Net.Guard.{TargetPolicy, refused_private, admits_scope}
use verif_ai.Net.Guard.Strictest.{scope, all_admitted}
use verif_ai.Net.Address.Classify.{classify_address, classify_ipv4}
use verif_ai.Net.Address.Parse.{parse_ipv4}
use verif_ai.Runner.Dilution.{unobserved, fresh}
use verif_ai.Runner.Session.{blocked_target, timeout}
use verif_ai.Node.Resolver.{absent_family, pinned_lookup}
use verif_ai.Node.Resolver.Pins.{addresses_ok, answered_with}
use verif_ai.Node.Exchange.{
  ResponseHead, NodeResult, failure_of, deadline, NetEvent, on_socket, on_connect,
  on_secure_connect, on_response, on_body, on_stop, on_close, exchange_on, new_exchange,
}
use verif_ai.Node.Exchange.Settles.{Honest}
use verif_ai.Node.Exchange.Stops.{exchange_on-stopped}
use verif_ai.Node.Transport.{
  post, TransportRequest, SendPlan, reachable, Outside, resolved_to, exchanges, refuses,
  send_request, wire_headers, run_exchange,
}
use verif_ai.Node.Transport.Dials.{send_request_dials}
use verif_ai.Node.Body.{
  Bytes, BodyChunk, identity, decoded_by, gunzip, unsupported, body_coding, complete,
  body_too_large, unreadable_body, BodyEvent, raw, decoded, ended, closed, new_reader, concat,
  read_body,
}
use verif_ai.Node.Body.Reads.{Tile}
use verif_ai.Node.Body.Whole.{IsSettled, whole_of, as_raw, read_body_whole}
use verif_ai.Node.Body.Delivers.{delivered, read_body_lem}

abbrev bytes : Bytes
bytes = 1 ∷ 2 ∷ 3 ∷ []

abbrev events : List (ℕ × BodyEvent)
events = (1, raw (1 ∷ 2 ∷ [])) ∷ (2, raw (3 ∷ [])) ∷ (3, ended) ∷ (4, closed true) ∷ []

abbrev chunks : List BodyChunk
chunks = record { at_ms = 1; start = 0; end = 2 } ∷ record { at_ms = 2; start = 2; end = 3 } ∷ []

body_is_read :
    (read_body identity 3 events new_reader).outcome ≡ some (complete (1 ∷ 2 ∷ 3 ∷ []) chunks 3)
unfolding read_body concat
body_is_read = refl

one_byte_over : (read_body identity 2 events new_reader).outcome ≡ some body_too_large
unfolding read_body
one_byte_over = refl

cut_short :
    (read_body
      (decoded_by gunzip)
      9
      ((1, raw (7 ∷ [])) ∷ (2, decoded (1 ∷ [])) ∷ (3, closed false) ∷ [])
      new_reader).outcome
    ≡ some unreadable_body
unfolding read_body
cut_short = refl

gzip_is_read :
    body_coding (record { name = codes "Content-Encoding"; value = codes " GZip" } ∷ [])
    ≡ decoded_by gunzip
unfolding body_coding
gzip_is_read = refl

two_codings :
    body_coding (record { name = codes "content-encoding"; value = codes "gzip, br" } ∷ [])
    ≡ unsupported
unfolding body_coding
two_codings = refl

read_body_lem_example :
    ((front : List (ℕ × BodyEvent)) × (back : List (ℕ × BodyEvent)) × (events ≡ front ++ back)
      × (bytes ≡ delivered identity false front))
    × (length bytes ≤ 3)
    × Tile 0 chunks (length bytes)
read_body_lem_example = read_body_lem identity 3 events bytes chunks 3 body_is_read

abbrev parts : List (ℕ × Bytes)
parts = (1, 1 ∷ 2 ∷ []) ∷ (2, []) ∷ (5, 3 ∷ []) ∷ []

read_body_whole_example :
    IsSettled
      (ltb 3 (length (whole_of parts)))
      (whole_of parts)
      6
      (read_body identity 3 (map as_raw parts ++ (6, ended) ∷ []) new_reader).outcome
read_body_whole_example = read_body_whole parts 3 6 []

abbrev gateway_url : Url
gateway_url = record {
  protocol = codes "https:";
  username = [];
  password = [];
  hostname = codes "gw.test";
  host = codes "gw.test";
  port = [];
  origin = codes "https://gw.test";
  pathname = codes "/v1";
  search = [];
}

abbrev parse_gateway : Text → Option Url
parse_gateway input = some gateway_url

abbrev gateway : TargetUrl
gateway = record {
  href = codes "https://gw.test/v1";
  protocol = https;
  hostname = codes "gw.test";
  host = codes "gw.test";
  port = 443;
  path = codes "/v1";
  address_literal = none;
}

abbrev request : TransportRequest
request = record {
  method = post;
  url = codes "https://gw.test/v1";
  headers = record { name = codes "Accept"; value = codes "*/*" } ∷ [];
  body = none;
  timeout_ms = none;
  max_response_bytes = some 10;
}

abbrev strict : TargetPolicy
strict = record { allow_private_targets = false }

abbrev plan : SendPlan
plan = record { target = reachable gateway; timeout_ms = 60000; max_response_bytes = 10 }

abbrev resolving : List Text → Outside
resolving addresses = record {
  early = none;
  race = resolved_to addresses;
  started_ms = 0;
  refused_ms = 1;
}

public_is_dialled :
    send_request parse_gateway request strict (resolving (codes "8.8.8.8" ∷ []))
    ≡ exchanges plan gateway (codes "8.8.8.8" ∷ [])
unfolding send_request text_eq supported_protocol bare_hostname literal_of classify_address
    classify_ipv4 parse_ipv4
public_is_dialled = refl

-- One private address among public ones refuses them all.
rebound_is_refused :
    send_request parse_gateway request strict (resolving (codes "8.8.8.8" ∷ codes "10.0.0.1" ∷ []))
    ≡ refuses (record {
      kind = blocked_target;
      message = codes "VerifAI will not connect to this endpoint address.";
      was_sent = false;
      connection = unobserved;
      blocked_scope = some refused_private;
      started_ms = 0;
      failed_ms = 1;
    })
unfolding send_request text_eq supported_protocol bare_hostname literal_of classify_address
    classify_ipv4 parse_ipv4
rebound_is_refused = refl

send_request_dials_example :
    (codes "8.8.8.8" ∷ [] ≢ [])
    × (all_admitted strict (codes "8.8.8.8" ∷ []) ≡ true)
    × ((gateway.address_literal ≡ none) ⊎ (codes "8.8.8.8" ∷ [] ≡ gateway.hostname ∷ []))
    × (addresses_ok
          (λ a. admits_scope (scope a) strict)
          (answered_with (
            pinned_lookup
              (λ a. 4)
              gateway.hostname
              (codes "8.8.8.8" ∷ [])
              (codes "GW.test")
              absent_family
              true))
        ≡ true)
send_request_dials_example =
    send_request_dials parse_gateway request strict (resolving (codes "8.8.8.8" ∷ [])) plan gateway
      (codes "8.8.8.8" ∷ []) (λ a. 4) (codes "GW.test") absent_family true public_is_dialled

abbrev head : ResponseHead
head = record {
  status_code = some 200;
  status_message = none;
  http_version = codes "1.1";
  raw_headers = codes "Content-Length" ∷ codes "3" ∷ [];
}

abbrev until_headers : List (ℕ × NetEvent)
until_headers =
    (1, on_socket false)
    ∷ (2, on_connect)
    ∷ (3, on_secure_connect)
    ∷ (4, on_response head)
    ∷ (5, on_body (raw bytes))
    ∷ []

-- A body that stays open meets the deadline, after the request was sent.
deadline_ends_it :
    run_exchange plan gateway 0 (until_headers ++ (9, on_stop deadline) ∷ [])
    ≡ some (
        failure_of (record {
          kind = timeout;
          message = codes "The endpoint did not finish answering within the time limit.";
          was_sent = true;
          connection = fresh;
          blocked_scope = none;
          started_ms = 0;
          failed_ms = 9;
        }))
unfolding run_exchange text_eq to_lower_case split
deadline_ends_it = refl

wire_is_framed :
    wire_headers request gateway (some (codes "agent"))
    ≡ codes "Host"
      ∷ codes "gw.test"
      ∷ codes "Accept"
      ∷ codes "*/*"
      ∷ codes "User-Agent"
      ∷ codes "agent"
      ∷ codes "Content-Length"
      ∷ codes "0"
      ∷ codes "Connection"
      ∷ codes "close"
      ∷ []
unfolding wire_headers text_eq to_lower_case
wire_is_framed = refl

abbrev late_body : List (ℕ × NetEvent)
late_body = (10, on_body ended) ∷ (11, on_close) ∷ []

exchange_on-stopped_example :
    (result : NodeResult) × ((exchange_on true 10 0
        (until_headers ++ (9, on_stop deadline) ∷ [])
        new_exchange).result
      ≡ some result)
    × ((exchange_on true 10 0
          (until_headers ++ (9, on_stop deadline) ∷ late_body)
          new_exchange).result
        ≡ some result)
    × Honest true 10 0 (some result)
exchange_on-stopped_example = exchange_on-stopped true 10 0 until_headers late_body 9 deadline
