-- ===== src/Runner/Session/Sends.antt =====
-- What a send of packages/core/src/runner/session.ts keeps: the budget, and the evidence of each
-- request.
use verif_ai.Common.{
  ℕ, suc, ◌+◌, ◌≤◌, ◌≡◌, ◌⊎◌, Bool, true, false, Option, none, some, [], ◌∷◌, length, length-append,
  arith, String, Option-cases, inl, inr,
}
use verif_ai.Runner.Session.{
  Credential, ProbeRequest, SendOptions, Response, TransportResult, Attempt, done, retry, final,
  State, Outcome, returned, thrown, rejected, SessionOptions, credential_of, attempt, wait,
  last_answer, resend, after_wait, after_first, send_as, send, entry_of,
}

abbrev pub state_of : {A : Type 0} → Outcome A → State
state_of (returned value state) = state
state_of (thrown error state) = state
state_of (rejected state) = state

-- The requests without evidence: the last one, where the transport rejected it.
abbrev pub unrecorded : {A : Type 0} → Outcome A → ℕ
unrecorded (returned value state) = 0
unrecorded (thrown error state) = 0
unrecorded (rejected state) = 1

module _ (options : SessionOptions) (transport : ℕ → Option TransportResult) (aborted : ℕ → Bool)
    (retry_wait_ms : Response → Option ℕ) (names_missing_model : Response → Bool) where
  -- From `s` to `s'`: at most `most` requests were sent, each with one entry of evidence but for those
  -- that were not recorded, `before` of them at `s` and `after` at `s'`; and nothing was sent past a
  -- limit.
  abbrev Keeps : ℕ → State → ℕ → State → ℕ → Type 0
  Keeps most s before s' after =
      (s'.requests ≤ s.requests + most)
      × (length s'.evidence + after + s.requests ≡ length s.evidence + before + s'.requests)
      × (((s'.requests ≡ s.requests) × (s'.tokens ≡ s.tokens))
          ⊎ ((s'.requests ≤ options.max_requests) × (s'.tokens ≤ options.max_tokens)))

  -- From a state where all is recorded to what a step comes to, and from one step to the next.
  abbrev From : {A : Type 0} → ℕ → State → Outcome A → Type 0
  From most s o = Keeps most s 0 (state_of o) (unrecorded o)

  abbrev Onward : {A B : Type 0} → ℕ → Outcome A → Outcome B → Type 0
  Onward most o o' = Keeps most (state_of o) (unrecorded o) (state_of o') (unrecorded o')

  Keeps-trans :
      (m k all : ℕ) (a : State) (i : ℕ) (b : State) (j : ℕ) (c : State) (l : ℕ)
      → m + k ≡ all
      → Keeps m a i b j
      → Keeps k b j c l
      → Keeps all a i c l
  Keeps-trans m k all a i b j c l e h h' = ground arith

  From-trans :
      {A B : Type 0} (m k all : ℕ) (s : State) (o : Outcome A) (o' : Outcome B)
      → m + k ≡ all
      → From m s o
      → Onward k o o'
      → From all s o'
  From-trans m k all s o o' e h h' =
      Keeps-trans m k all s 0 (state_of o) (unrecorded o) (state_of o') (unrecorded o') e h h'

  attempt-Keeps :
      (request : ProbeRequest) (credential : Credential) (to : SendOptions) (is_retry : Bool)
      (s : State)
      → From 1 s (
          attempt options transport aborted retry_wait_ms names_missing_model request credential to
            is_retry s)
  unfolding attempt
  attempt-Keeps request credential to is_retry s = elim (Option-cases (transport s.requests)) [
    | inl none_met ↦ rw none_met (ground arith)
    | inr (result, meets) ↦
        rw meets (ground (arith, length-append s.evidence (entry_of result to is_retry ∷ [])))
  ]

  wait-Keeps :
      (probe_id : String) (wait_ms : ℕ) (s : State)
      → From 0 s
          (wait options transport aborted retry_wait_ms names_missing_model probe_id wait_ms s)
  unfolding wait
  wait-Keeps probe_id wait_ms s = ground arith

  last_answer-Keeps :
      (o : Outcome Attempt)
      → Onward 0 o (last_answer options transport aborted retry_wait_ms names_missing_model o)
  last_answer-Keeps (returned (done exchange) s) = ground arith
  last_answer-Keeps (returned (retry wait_ms) s) = ground arith
  last_answer-Keeps (returned (final error) s) = ground arith
  last_answer-Keeps (thrown error s) = ground arith
  last_answer-Keeps (rejected s) = ground arith

  -- A draw is never sent again.
  abbrev pub resends : Option ℕ → ℕ
  resends none = 1
  resends (some draw) = 0

  resend-Keeps :
      (request : ProbeRequest) (credential : Credential) (to : SendOptions) (draw : Option ℕ)
      (s : State)
      → From (resends draw) s (
          resend options transport aborted retry_wait_ms names_missing_model request credential to
            draw s)
  resend-Keeps request credential to (some draw) s = ground arith
  resend-Keeps request credential to none s =
      let again =
        attempt options transport aborted retry_wait_ms names_missing_model request credential to
          true s in
      From-trans 1 0 1 s again
        (last_answer options transport aborted retry_wait_ms names_missing_model again)
        (omega arith) (attempt-Keeps request credential to true s) (last_answer-Keeps again)

  after_wait-Keeps :
      (request : ProbeRequest) (credential : Credential) (to : SendOptions) (o : Outcome (Unit {0}))
      → Onward (resends to.draw) o (
          after_wait options transport aborted retry_wait_ms names_missing_model request credential
            to o)
  after_wait-Keeps request credential to (thrown error s) = ground arith
  after_wait-Keeps request credential to (rejected s) = ground arith
  after_wait-Keeps request credential to (returned _ s) =
      resend-Keeps request credential to to.draw s

  after_first-Keeps :
      (request : ProbeRequest) (credential : Credential) (to : SendOptions) (o : Outcome Attempt)
      → Onward (resends to.draw) o (
          after_first options transport aborted retry_wait_ms names_missing_model request credential
            to o)
  after_first-Keeps request credential to (returned (done exchange) s) = ground arith
  after_first-Keeps request credential to (returned (final error) s) = ground arith
  after_first-Keeps request credential to (thrown error s) = ground arith
  after_first-Keeps request credential to (rejected s) = ground arith
  after_first-Keeps request credential to (returned (retry wait_ms) s) =
      let waited =
        wait options transport aborted retry_wait_ms names_missing_model to.probe_id wait_ms s in
      From-trans 0 (resends to.draw) (resends to.draw) s waited
        (after_wait options transport aborted retry_wait_ms names_missing_model request credential
          to waited)
        (omega arith) (wait-Keeps to.probe_id wait_ms s)
        (after_wait-Keeps request credential to waited)

  send_as-Keeps :
      (request : ProbeRequest) (to : SendOptions) (s : State) (o : Option Credential)
      → From
          (suc (resends to.draw))
          s
          (send_as options transport aborted retry_wait_ms names_missing_model request to s o)
  send_as-Keeps request to s none = ground arith
  send_as-Keeps request to s (some credential) =
      let first =
        attempt options transport aborted retry_wait_ms names_missing_model request credential to
          false s in
      From-trans 1 (resends to.draw) (suc (resends to.draw)) s first
        (after_first options transport aborted retry_wait_ms names_missing_model request credential
          to first)
        (omega arith) (attempt-Keeps request credential to false s)
        (after_first-Keeps request credential to first)

  send-Keeps :
      (request : ProbeRequest) (to : SendOptions) (s : State)
      → From
          (suc (resends to.draw))
          s
          (send options transport aborted retry_wait_ms names_missing_model request to s)
  unfolding send
  send-Keeps request to s =
      send_as-Keeps request to s (credential_of options.has_key request.credential)

  -- A send stays within the budget, whatever the endpoint answers, and whether it returns, throws, or
  -- the transport rejects: from a state within the limits it leaves one within them, after two requests
  -- at most, or one for a draw. Each request has an entry of evidence, but for the last one where the
  -- transport rejected it.
  pub send_lem :
      (request : ProbeRequest) (to : SendOptions) (s : State)
      → s.requests ≤ options.max_requests
      → s.tokens ≤ options.max_tokens
      → ((state_of (
            send options transport aborted retry_wait_ms names_missing_model request to s)).requests
          ≤ options.max_requests)
        × ((state_of (
              send options transport aborted retry_wait_ms names_missing_model request to s)).tokens
            ≤ options.max_tokens)
        × ((state_of (
              send options transport aborted retry_wait_ms names_missing_model request to
                s)).requests
            ≤ s.requests + suc (resends to.draw))
        × (length (
                (state_of (
                  send options transport aborted retry_wait_ms names_missing_model request to
                    s)).evidence)
              + unrecorded
                  (send options transport aborted retry_wait_ms names_missing_model request to s)
              + s.requests
            ≡ length s.evidence
              + (state_of (
                  send options transport aborted retry_wait_ms names_missing_model request to
                    s)).requests)
  send_lem request to s h k = let (few, noted, held) = send-Keeps request to s in ground arith
