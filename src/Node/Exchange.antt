-- ===== src/Node/Exchange.antt =====
-- packages/node/src/transport.ts: an exchange on a connection. What the request, its socket, the body
-- and the signal that stops it do is a sequence of events; a time is that of the event.
pub mod Settles
pub mod Stays
pub mod Stops
use verif_ai.Common.{
  ℕ, Bool, true, false, Option, none, some, List, [], ◌∷◌, Text, codes, if◌then◌else◌,
}
use verif_ai.Transport.Headers.{HeaderPair, pairs_from_raw_headers}
use verif_ai.Net.Guard.{RefusedScope, refused_forbidden}
use verif_ai.Runner.Dilution.{ConnectionReuse, fresh, reused, unobserved}
use verif_ai.Runner.Session.{
  FailureKind, blocked_target, dns_failure, connection_failed, tls_failure, timeout, aborted_send,
  response_too_large, unreadable_response,
}
use verif_ai.Node.Body.{
  Bytes, BodyChunk, BodyCoding, unsupported, body_coding, BodyOutcome, complete, body_too_large,
  unreadable_body, BodyEvent, Reader, new_reader, on_event,
}

pub data Cause : Type 0 where
  deadline caller_abort : Cause

abbrev pub kind_of : Cause → FailureKind
kind_of deadline = timeout
kind_of caller_abort = aborted_send

pub record NodeFailure : Type 0 where
  pub kind : FailureKind
  pub message : Text
  pub was_sent : Bool
  pub connection : ConnectionReuse
  pub blocked_scope : Option RefusedScope
  pub started_ms : ℕ
  pub failed_ms : ℕ

abbrev pub failure_message : FailureKind → Text
failure_message blocked_target = codes "VerifAI will not connect to this endpoint address."
failure_message dns_failure = codes "The endpoint hostname could not be resolved."
failure_message connection_failed = codes "Could not open a connection to the endpoint."
failure_message tls_failure = codes "The TLS handshake with the endpoint failed."
failure_message timeout = codes "The endpoint did not finish answering within the time limit."
failure_message aborted_send = codes "The request was cancelled."
failure_message response_too_large =
    codes "The endpoint sent more data than VerifAI accepts for one response."
failure_message unreadable_response =
    codes "The endpoint sent a response VerifAI could not read as HTTP."

abbrev pub keeps_scope : FailureKind → Option RefusedScope → Option RefusedScope
keeps_scope blocked_target scope = scope
keeps_scope _ scope = none

abbrev pub transport_failure :
    FailureKind → Bool → ConnectionReuse → ℕ → ℕ → Option RefusedScope → NodeFailure
transport_failure kind was_sent connection started now scope = record {
  kind = kind;
  message = failure_message kind;
  was_sent = was_sent;
  connection = connection;
  blocked_scope = keeps_scope kind scope;
  started_ms = started;
  failed_ms = now;
}

pub record NodeResponse : Type 0 where
  pub status : ℕ
  pub status_text : Text
  pub http_version : Text
  pub headers : List HeaderPair
  pub body : Bytes
  pub chunks : List BodyChunk
  pub connection : ConnectionReuse
  pub started_ms : ℕ
  pub headers_ms : ℕ
  pub completed_ms : ℕ

pub data NodeResult : Type 0 where
  response_of : NodeResponse → NodeResult
  failure_of : NodeFailure → NodeResult

pub data Phase : Type 0 where
  connecting handshaking exchanging : Phase

-- ERROR_KINDS
abbrev pub error_kind : Phase → FailureKind
error_kind connecting = connection_failed
error_kind handshaking = tls_failure
error_kind exchanging = unreadable_response

abbrev pub is_exchanging : Phase → Bool
is_exchanging exchanging = true
is_exchanging _ = false

-- What a response has before its body.
pub record ResponseHead : Type 0 where
  pub status_code : Option ℕ
  pub status_message : Option Text
  pub http_version : Text
  pub raw_headers : List Text

pub data NetEvent : Type 0 where
  on_socket : Bool → NetEvent
  on_connect on_secure_connect on_close : NetEvent
  on_error : Bool → NetEvent
  on_response : ResponseHead → NetEvent
  on_body : BodyEvent → NetEvent
  on_stop : Cause → NetEvent

-- The body that is being read, and the response it is of.
pub record Reading : Type 0 where
  pub head : ResponseHead
  pub headers : List HeaderPair
  pub headers_ms : ℕ
  pub coding : BodyCoding
  pub reader : Reader

-- The variables of `exchange`, with the listeners that are left to a socket and the reason to stop.
pub record ExchangeState : Type 0 where
  pub phase : Phase
  pub connection : ConnectionReuse
  pub responded : Bool
  pub awaits_connect : Bool
  pub awaits_secure : Bool
  pub reason : Option Cause
  pub reading : Option Reading
  pub result : Option NodeResult

-- `settle`: the first result stays.
abbrev pub settle_exchange : NodeResult → ExchangeState → ExchangeState
settle_exchange result state = record state {
  result = elim state.result [ none ↦ some result | some first ↦ some first ];
}

-- `fail`
abbrev pub fail : ℕ → ℕ → FailureKind → Option RefusedScope → ExchangeState → ExchangeState
fail started now kind scope state =
    settle_exchange
      (failure_of
        (transport_failure kind (is_exchanging state.phase) state.connection started now scope))
      state

abbrev pub status_or_zero : Option ℕ → ℕ
status_or_zero none = 0
status_or_zero (some status) = status

abbrev pub text_or_empty : Option Text → Text
text_or_empty none = []
text_or_empty (some text) = text

module _ (secure : Bool) (max_bytes started : ℕ) where
  -- What the outcome of the body settles on.
  abbrev pub with_outcome : ℕ → Reading → BodyOutcome → ExchangeState → ExchangeState
  with_outcome now reading body_too_large state = fail started now response_too_large none state
  with_outcome now reading unreadable_body state = fail started now unreadable_response none state
  with_outcome now reading (complete body chunks completed) state =
      settle_exchange
        (response_of (record {
          status = status_or_zero reading.head.status_code;
          status_text = text_or_empty reading.head.status_message;
          http_version = reading.head.http_version;
          headers = reading.headers;
          body = body;
          chunks = chunks;
          connection = state.connection;
          started_ms = started;
          headers_ms = reading.headers_ms;
          completed_ms = completed;
        }))
        state

  abbrev pub once_read : ℕ → Reading → Option BodyOutcome → ExchangeState → ExchangeState
  once_read now reading none state = state
  once_read now reading (some outcome) state = with_outcome now reading outcome state

  -- An event of the body that is read, if one is.
  abbrev pub on_body_event : ℕ → BodyEvent → Option Reading → ExchangeState → ExchangeState
  on_body_event now event none state = state
  on_body_event now event (some reading) state =
      let next = on_event reading.coding max_bytes now event reading.reader in
      let going = record reading { reader = next } in
      once_read now going next.outcome (record state { reading = some going })

  -- The headers of a response are in; an odd list of them, which Node does not give, would throw.
  abbrev pub with_coding :
      ℕ → ResponseHead → List HeaderPair → BodyCoding → ExchangeState → ExchangeState
  with_coding now head headers unsupported state = fail started now unreadable_response none state
  with_coding now head headers coding state = record state {
    reading = some (record {
      head = head;
      headers = headers;
      headers_ms = now;
      coding = coding;
      reader = new_reader;
    });
  }

  abbrev pub with_headers :
      ℕ → ResponseHead → Option (List HeaderPair) → ExchangeState → ExchangeState
  with_headers now head none state = state
  with_headers now head (some headers) state =
      with_coding now head headers (body_coding headers) state

  -- `connected`
  abbrev pub connected : ExchangeState → ExchangeState
  connected state = record state {
    awaits_connect = false;
    connection = fresh;
    phase = if secure then handshaking else exchanging;
  }

  unfoldable pub on_net_event : ℕ → NetEvent → ExchangeState → ExchangeState
  unfolding on_event body_coding pairs_from_raw_headers
  on_net_event now (on_socket was_reused) state =
      if was_reused
      then record state { connection = reused; phase = exchanging }
      else record state { awaits_connect = true; awaits_secure = true }
  on_net_event now on_connect state = if state.awaits_connect then connected state else state
  on_net_event now on_secure_connect state =
      if state.awaits_secure
      then record state { awaits_secure = false; phase = exchanging }
      else state
  on_net_event now (on_error was_unpinned) state =
      if was_unpinned
      then fail started now blocked_target (some refused_forbidden) state
      else fail started now (error_kind state.phase) none state
  on_net_event now on_close state =
      if state.responded then state else fail started now (error_kind state.phase) none state
  on_net_event now (on_response head) state =
      with_headers now head (pairs_from_raw_headers head.raw_headers)
        (record state { responded = true; phase = exchanging })
  on_net_event now (on_body event) state = on_body_event now event state.reading state
  on_net_event now (on_stop cause) state = elim state.reason [
    | some first ↦ state
    | none ↦ fail started now (kind_of cause) none (record state { reason = some cause })
  ]

  unfoldable pub exchange_on : List (ℕ × NetEvent) → ExchangeState → ExchangeState
  unfolding on_net_event
  exchange_on [] state = state
  exchange_on ((now, event) ∷ events) state = exchange_on events (on_net_event now event state)

-- `exchange`, where nothing has stopped it before it starts.
abbrev pub new_exchange : ExchangeState
new_exchange = record {
  phase = connecting;
  connection = unobserved;
  responded = false;
  awaits_connect = false;
  awaits_secure = false;
  reason = none;
  reading = none;
  result = none;
}
