-- ===== src/Runner/Session.antt =====
-- packages/core/src/runner/session.ts: the one path of a request to the wire, with its budget, its
-- evidence and its one retry. The n-th request meets `transport n`, which is none
-- where `transport.send` rejects, and the n-th look at the abort signal finds `aborted n`. What `retryWaitMs` and `namesMissingModel` read of a response, and the
-- request that the adapter builds, are parameters: the counts and the outcome do not rest on them.
pub mod Sends
pub mod Answers
use verif_ai.Common.{
  ℕ, suc, ◌+◌, ◌≤◌, Bool, true, false, ◌&&◌, ◌||◌, Option, none, some, List, [], ◌∷◌, ◌++◌, any,
  String, Text, leb, ltb, ◌==◌, if◌then◌else◌,
}
use verif_ai.Runner.Dilution.{ConnectionReuse}

pub data FailureKind : Type 0 where
  blocked_target dns_failure connection_failed tls_failure timeout aborted_send response_too_large
        unreadable_response :
      FailureKind

pub data StopReason : Type 0 where
  invalid_key model_not_found unreachable : StopReason

-- The errors of runner/errors.ts that a send throws, and the TypeError of `credentialOf`.
pub data RunError : Type 0 where
  probe_lost budget_exceeded target_blocked run_aborted : RunError
  run_stopped : StopReason → RunError
  bad_probe : RunError

pub data Credential : Type 0 where
  buyer keyless : Credential

pub record ProbeRequest : Type 0 where
  pub credential : Option Credential
  pub provokes : List ℕ
  pub tokens : Option ℕ
  pub generates : Bool

pub record SendOptions : Type 0 where
  pub probe_id : String
  pub draw : Option ℕ

pub record Response : Type 0 where
  pub status : ℕ
  pub body : Text
  pub connection : ConnectionReuse

pub record Failure : Type 0 where
  pub kind : FailureKind
  pub sent : Bool
  pub connection : ConnectionReuse

pub data TransportResult : Type 0 where
  answered : Response → TransportResult
  failed : Failure → TransportResult

pub record Exchange : Type 0 where
  pub response : Response
  pub retried : Bool

pub data Attempt : Type 0 where
  done : Exchange → Attempt
  retry : ℕ → Attempt
  final : RunError → Attempt

-- An entry without its digests and times.
pub record EvidenceEntry : Type 0 where
  pub probe_id : String
  pub status : Option ℕ
  pub failure : Option FailureKind
  pub connection : ConnectionReuse
  pub draw : Option ℕ
  pub is_retry : Bool

pub data RunEvent : Type 0 where
  request_event : String → Option ℕ → ℕ → RunEvent
  waiting : String → ℕ → RunEvent

pub record State : Type 0 where
  pub requests : ℕ
  pub tokens : ℕ
  pub reached : Bool
  pub evidence : List EvidenceEntry
  pub events : List RunEvent
  -- The looks at the abort signal so far.
  pub looks : ℕ

abbrev pub initial_state : State
initial_state = record {
  requests = 0;
  tokens = 0;
  reached = false;
  evidence = [];
  events = [];
  looks = 0;
}

-- What a step returns or throws, and the state it leaves.
pub data Outcome (A : Type 0) : Type 0 where
  returned : A → State → Outcome A
  thrown : RunError → State → Outcome A
  -- The error that the transport rejected with.
  rejected : State → Outcome A

pub record SessionOptions : Type 0 where
  pub has_key : Bool
  pub max_requests : ℕ
  pub max_tokens : ℕ

abbrev pub default_retry_wait_ms : ℕ
default_retry_wait_ms = 1000

unfoldable pub is_transient_status : ℕ → Bool
is_transient_status status = status == 408 || status == 429 || (leb 500 status && leb status 599)

abbrev pub is_transient_failure : FailureKind → Bool
is_transient_failure timeout = true
is_transient_failure connection_failed = true
is_transient_failure unreadable_response = true
is_transient_failure _ = false

abbrev pub failure_attempt : FailureKind → Attempt
failure_attempt blocked_target = final target_blocked
failure_attempt aborted_send = final run_aborted
failure_attempt kind =
    if is_transient_failure kind then retry default_retry_wait_ms else final probe_lost

abbrev pub is_buyer : Credential → Bool
is_buyer buyer = true
is_buyer keyless = false

-- `none` where `credentialOf` throws.
abbrev pub credential_of : Bool → Option Credential → Option Credential
credential_of true none = some buyer
credential_of false none = some keyless
credential_of true (some credential) = some credential
credential_of false (some buyer) = none
credential_of false (some keyless) = some keyless

abbrev pub or_none : Option ℕ → ℕ
or_none none = 0
or_none (some tokens) = tokens

abbrev pub entry_of : TransportResult → SendOptions → Bool → EvidenceEntry
entry_of (answered response) send is_retry = record {
  probe_id = send.probe_id;
  status = some response.status;
  failure = none;
  connection = response.connection;
  draw = send.draw;
  is_retry = is_retry;
}
entry_of (failed failure) send is_retry = record {
  probe_id = send.probe_id;
  status = none;
  failure = some failure.kind;
  connection = failure.connection;
  draw = send.draw;
  is_retry = is_retry;
}

abbrev pub status_of : TransportResult → Option ℕ
status_of (answered response) = some response.status
status_of (failed failure) = none

abbrev pub now_reached : TransportResult → Bool → Bool
now_reached (answered response) reached = true
now_reached (failed failure) reached = reached || failure.sent

module _ (options : SessionOptions) (transport : ℕ → Option TransportResult) (aborted : ℕ → Bool)
    (retry_wait_ms : Response → Option ℕ) (names_missing_model : Response → Bool) where
  unfoldable pub refusal_of : Response → ProbeRequest → Credential → Option RunError
  refusal_of response request credential =
      if is_buyer credential && response.status == 401
      then some (run_stopped invalid_key)
      else if is_buyer credential && response.status == 403
      then some probe_lost
      else if response.status == 404 && request.generates && names_missing_model response
      then some (run_stopped model_not_found)
      else none

  abbrev pub transient_attempt : Response → Attempt
  transient_attempt response = elim (retry_wait_ms response) [
    | none ↦ final probe_lost
    | some wait_ms ↦ retry wait_ms
  ]

  unfoldable pub response_attempt : Response → ProbeRequest → Credential → Bool → Attempt
  unfolding refusal_of is_transient_status
  response_attempt response request credential retried =
      let exchange : Exchange = record { response = response; retried = retried } in
      if any (λ status. status == response.status) request.provokes
      then done exchange
      else elim (refusal_of response request credential) [
        | some error ↦ final error
        | none ↦
            if is_transient_status response.status
            then transient_attempt response
            else done exchange
      ]

  abbrev pub judged : TransportResult → ProbeRequest → Credential → Bool → Attempt
  unfolding response_attempt
  judged (answered response) request credential retried =
      response_attempt response request credential retried
  judged (failed failure) request credential retried = failure_attempt failure.kind

  -- The state after a request that met `result`.
  abbrev pub sent_with : ProbeRequest → SendOptions → Bool → TransportResult → State → State
  sent_with request send is_retry result state = record {
    requests = state.requests + 1;
    tokens = state.tokens + or_none request.tokens;
    reached = now_reached result state.reached;
    evidence = state.evidence ++ entry_of result send is_retry ∷ [];
    events =
        state.events
        ++ request_event send.probe_id (status_of result) (or_none request.tokens) ∷ [];
    looks = state.looks;
  }

  -- The state that a request leaves which the transport rejects: it is counted, with no evidence.
  abbrev pub rejected_with : ProbeRequest → State → State
  rejected_with request state = record state {
    requests = state.requests + 1;
    tokens = state.tokens + or_none request.tokens;
  }

  -- What follows `transport.send`.
  abbrev pub met :
      ProbeRequest
      → Credential
      → SendOptions
      → Bool
      → State
      → Option TransportResult
      → Outcome Attempt
  unfolding response_attempt
  met request credential send is_retry state none = rejected (rejected_with request state)
  met request credential send is_retry state (some result) =
      returned (judged result request credential is_retry)
        (sent_with request send is_retry result state)

  abbrev pub over_budget : ProbeRequest → State → Bool
  over_budget request state =
      ltb options.max_requests (state.requests + 1)
      || ltb options.max_tokens (state.tokens + or_none request.tokens)

  -- `throwIfAborted`
  abbrev pub looked : State → State
  looked state = record state { looks = state.looks + 1 }

  unfoldable pub attempt : ProbeRequest → Credential → SendOptions → Bool → State → Outcome Attempt
  unfolding response_attempt
  attempt request credential send is_retry state =
      let outcome =
        met request credential send is_retry (looked state) (transport state.requests) in
      if aborted state.looks
      then thrown run_aborted (looked state)
      else if over_budget request state
      then thrown budget_exceeded (looked state)
      else outcome

  unfoldable pub wait : String → ℕ → State → Outcome (Unit {0})
  wait probe_id wait_ms state =
      let state' = record (looked state) {
        events = state.events ++ waiting probe_id wait_ms ∷ [];
      } in
      if aborted state.looks
      then thrown run_aborted (looked state)
      else if aborted state'.looks
      then thrown run_aborted (looked state')
      else returned tt (looked state')

  -- The end of `send`, on the second attempt.
  abbrev pub last_answer : Outcome Attempt → Outcome Exchange
  last_answer (returned (done exchange) state) = returned exchange state
  last_answer (returned (retry wait_ms) state) = thrown probe_lost state
  last_answer (returned (final error) state) = thrown error state
  last_answer (thrown error state) = thrown error state
  last_answer (rejected state) = rejected state

  -- After the wait: a draw is lost, and any other request is sent again.
  abbrev pub resend : ProbeRequest → Credential → SendOptions → Option ℕ → State → Outcome Exchange
  resend request credential send (some draw) state = thrown probe_lost state
  resend request credential send none state =
      last_answer (attempt request credential send true state)

  abbrev pub after_wait :
      ProbeRequest → Credential → SendOptions → Outcome (Unit {0}) → Outcome Exchange
  after_wait request credential send (thrown error state) = thrown error state
  after_wait request credential send (rejected state) = rejected state
  after_wait request credential send (returned _ state) =
      resend request credential send send.draw state

  abbrev pub after_first :
      ProbeRequest → Credential → SendOptions → Outcome Attempt → Outcome Exchange
  after_first request credential send (returned (done exchange) state) = returned exchange state
  after_first request credential send (returned (final error) state) = thrown error state
  after_first request credential send (returned (retry wait_ms) state) =
      after_wait request credential send (wait send.probe_id wait_ms state)
  after_first request credential send (thrown error state) = thrown error state
  after_first request credential send (rejected state) = rejected state

  -- `send`, with the credential or the error that `credentialOf` gives.
  abbrev pub send_as : ProbeRequest → SendOptions → State → Option Credential → Outcome Exchange
  send_as request to state none = thrown bad_probe state
  send_as request to state (some credential) =
      after_first request credential to (attempt request credential to false state)

  unfoldable pub send : ProbeRequest → SendOptions → State → Outcome Exchange
  unfolding attempt wait
  send request to state =
      send_as request to state (credential_of options.has_key request.credential)
