-- ===== src/Node/Exchange/Settles.antt =====
-- That an exchange of packages/node/src/transport.ts settles, and on what.
use mathlib.Core.Path.{subst}
use verif_ai.Common.{
  ℕ, ◌≤◌, ◌≡◌, refl, Bool, true, false, Option, none, some, List, [], ◌∷◌, length, if◌then◌else◌,
  arith,
}
use verif_ai.Transport.Headers.{HeaderPair, pairs_from_raw_headers}
use verif_ai.Net.Guard.{RefusedScope, refused_forbidden}
use verif_ai.Runner.Session.{
  FailureKind, blocked_target, dns_failure, connection_failed, tls_failure, response_too_large,
  unreadable_response,
}
use verif_ai.Node.Body.{
  BodyCoding, unsupported, identity, decoded_by, body_coding, BodyOutcome, complete, body_too_large,
  unreadable_body, BodyEvent, concat, new_reader, on_event,
}
use verif_ai.Node.Body.Reads.{Tile, IsRead, IsGood, on_event-IsGood}
use verif_ai.Node.Exchange.{
  Cause, deadline, caller_abort, kind_of, NodeResult, response_of, failure_of, Phase, connecting,
  handshaking, exchanging, error_kind, is_exchanging, ResponseHead, NetEvent, on_socket, on_connect,
  on_secure_connect, on_close, on_error, on_response, on_body, on_stop, Reading, ExchangeState,
  settle_exchange, fail, with_outcome, once_read, on_body_event, with_coding, with_headers,
  on_net_event, exchange_on,
}

abbrev pub is_settled : Option NodeResult → Bool
is_settled none = false
is_settled (some result) = true

-- What a kind of failure says of whether the request was sent.
abbrev Says : FailureKind → Bool → Type 0
Says connection_failed was_sent = was_sent ≡ false
Says tls_failure was_sent = was_sent ≡ false
Says dns_failure was_sent = ⊥
Says _ was_sent = Unit

error_kind-Says : (phase : Phase) → Says (error_kind phase) (is_exchanging phase)
error_kind-Says connecting = refl
error_kind-Says handshaking = refl
error_kind-Says exchanging = tt

kind_of-Says : (cause : Cause) (was_sent : Bool) → Says (kind_of cause) was_sent
kind_of-Says deadline was_sent = tt
kind_of-Says caller_abort was_sent = tt

module _ (secure : Bool) (max_bytes started : ℕ) where
  -- A response's body is within the limit and its chunks tile it; a failure's kind agrees with
  -- whether it was sent.
  abbrev pub Honest : Option NodeResult → Type 0
  Honest none = Unit
  Honest (some (response_of r)) = Tile 0 r.chunks (length r.body) × (length r.body ≤ max_bytes)
  Honest (some (failure_of f)) = Says f.kind f.was_sent

  abbrev GoodReading : Option Reading → Type 0
  GoodReading none = Unit
  GoodReading (some reading) = IsGood max_bytes reading.reader

  -- Once there is a reason to stop there is a result.
  abbrev pub Stopped : Option Cause → Option NodeResult → Type 0
  Stopped none result = Unit
  Stopped (some cause) result = is_settled result ≡ true

  pub record IsSound (state : ExchangeState) : Type 0 where
    pub honest : Honest state.result
    pub good : GoodReading state.reading
    pub stopped : Stopped state.reason state.result

  pub is_settled-result :
      (result : NodeResult) (o : Option NodeResult)
      → is_settled (elim o [ none ↦ some result | some first ↦ some first ]) ≡ true
  is_settled-result result none = refl
  is_settled-result result (some first) = refl

  Honest-result :
      (result : NodeResult) (o : Option NodeResult)
      → Honest (some result)
      → Honest o
      → Honest (elim o [ none ↦ some result | some first ↦ some first ])
  Honest-result result none h k = h
  Honest-result result (some first) h k = k

  Stopped-result :
      (result : NodeResult) (r : Option Cause) (o : Option NodeResult)
      → Stopped r (elim o [ none ↦ some result | some first ↦ some first ])
  Stopped-result result none o = tt
  Stopped-result result (some cause) o = is_settled-result result o

  settles :
      (result : NodeResult) (state : ExchangeState)
      → Honest (some result)
      → IsSound state
      → IsSound (settle_exchange result state)
  settles result state h sound = record {
    honest = Honest-result result state.result h sound.honest;
    good = sound.good;
    stopped = Stopped-result result state.reason state.result;
  }

  fails :
      (now : ℕ) (kind : FailureKind) (scope : Option RefusedScope) (state : ExchangeState)
      → Says kind (is_exchanging state.phase)
      → IsSound state
      → IsSound (fail started now kind scope state)
  fails now kind scope state h sound = settles _ state h sound

  outcome-IsSound :
      (now : ℕ) (reading : Reading) (outcome : BodyOutcome) (state : ExchangeState)
      → IsRead max_bytes (some outcome)
      → IsSound state
      → IsSound (with_outcome secure max_bytes started now reading outcome state)
  outcome-IsSound now reading body_too_large state h sound =
      fails now response_too_large none state tt sound
  outcome-IsSound now reading unreadable_body state h sound =
      fails now unreadable_response none state tt sound
  outcome-IsSound now reading (complete body chunks completed) state h sound =
      settles _ state h sound

  once_read-IsSound :
      (now : ℕ) (reading : Reading) (outcome : Option BodyOutcome) (state : ExchangeState)
      → IsRead max_bytes outcome
      → IsSound state
      → IsSound (once_read secure max_bytes started now reading outcome state)
  once_read-IsSound now reading none state h sound = sound
  once_read-IsSound now reading (some outcome) state h sound =
      outcome-IsSound now reading outcome state h sound

  on_body_event-IsSound :
      (now : ℕ) (event : BodyEvent) (reading : Option Reading) (state : ExchangeState)
      → GoodReading reading
      → IsSound state
      → IsSound (on_body_event secure max_bytes started now event reading state)
  on_body_event-IsSound now event none state h sound = sound
  on_body_event-IsSound now event (some reading) state h sound =
      let good = on_event-IsGood max_bytes reading.coding now event reading.reader h in
      let going = record reading {
        reader = on_event reading.coding max_bytes now event reading.reader;
      } in
      once_read-IsSound now going going.reader.outcome (record state { reading = some going })
        good.1 (record { honest = sound.honest; good = good; stopped = sound.stopped })

  new_reader-IsGood : IsGood max_bytes new_reader
  unfolding concat
  new_reader-IsGood = (record { tiled = refl; measured = refl; bounded = omega arith }, tt)

  coding-IsSound :
      (now : ℕ) (head : ResponseHead) (headers : List HeaderPair) (coding : BodyCoding)
      (state : ExchangeState)
      → IsSound state
      → IsSound (with_coding secure max_bytes started now head headers coding state)
  coding-IsSound now head headers unsupported state sound =
      fails now unreadable_response none state tt sound
  coding-IsSound now head headers identity state sound = record {
    honest = sound.honest;
    good = new_reader-IsGood;
    stopped = sound.stopped;
  }
  coding-IsSound now head headers (decoded_by decoder) state sound = record {
    honest = sound.honest;
    good = new_reader-IsGood;
    stopped = sound.stopped;
  }

  headers-IsSound :
      (now : ℕ) (head : ResponseHead) (headers : Option (List HeaderPair)) (state : ExchangeState)
      → IsSound state
      → IsSound (with_headers secure max_bytes started now head headers state)
  headers-IsSound now head none state sound = sound
  headers-IsSound now head (some headers) state sound =
      coding-IsSound now head headers (body_coding headers) state sound

  when_IsSound :
      (test : Bool) (x y : ExchangeState) → IsSound x → IsSound y → IsSound (if test then x else y)
  when_IsSound true x y h k = h
  when_IsSound false x y h k = k

  -- A change that leaves the result, the reading and the reason.
  keeps :
      (x y : ExchangeState)
      → x.result ≡ y.result
      → x.reading ≡ y.reading
      → x.reason ≡ y.reason
      → IsSound x
      → IsSound y
  keeps x y r g s sound = record {
    honest = subst Honest r sound.honest;
    good = subst GoodReading g sound.good;
    stopped = subst (λ o. Stopped o y.result) s (subst (Stopped x.reason) r sound.stopped);
  }

  stop-IsSound :
      (now : ℕ) (cause : Cause) (state : ExchangeState)
      → IsSound state
      → IsSound (on_net_event secure max_bytes started now (on_stop cause) state)
  unfolding on_net_event
  stop-IsSound now cause state sound = by_reason state.reason refl
    where
      by_reason :
          (r : Option Cause)
          → r ≡ state.reason
          → IsSound (elim r [
            | some first ↦ state
            | none ↦ fail started now (kind_of cause) none (record state { reason = some cause })
          ])
      by_reason (some first) e = sound
      by_reason none e = record {
        honest =
            Honest-result _ state.result (kind_of-Says cause (is_exchanging state.phase))
              sound.honest;
        good = sound.good;
        stopped = is_settled-result _ state.result;
      }

  event-IsSound :
      (now : ℕ) (event : NetEvent) (state : ExchangeState)
      → IsSound state
      → IsSound (on_net_event secure max_bytes started now event state)
  unfolding on_net_event
  event-IsSound now (on_socket was_reused) state sound =
      when_IsSound was_reused _ _ (keeps state _ refl refl refl sound)
        (keeps state _ refl refl refl sound)
  event-IsSound now on_connect state sound =
      when_IsSound state.awaits_connect _ _ (keeps state _ refl refl refl sound) sound
  event-IsSound now on_secure_connect state sound =
      when_IsSound state.awaits_secure _ _ (keeps state _ refl refl refl sound) sound
  event-IsSound now (on_error was_unpinned) state sound =
      when_IsSound was_unpinned _ _
        (fails now blocked_target (some refused_forbidden) state tt sound)
        (fails now (error_kind state.phase) none state (error_kind-Says state.phase) sound)
  event-IsSound now on_close state sound =
      when_IsSound state.responded _ _ sound
        (fails now (error_kind state.phase) none state (error_kind-Says state.phase) sound)
  event-IsSound now (on_response head) state sound =
      headers-IsSound now head (pairs_from_raw_headers head.raw_headers) _
        (keeps state _ refl refl refl sound)
  event-IsSound now (on_body event) state sound =
      on_body_event-IsSound now event state.reading state sound.good sound
  event-IsSound now (on_stop cause) state sound = stop-IsSound now cause state sound

  pub exchange_on-IsSound :
      (events : List (ℕ × NetEvent)) (state : ExchangeState)
      → IsSound state
      → IsSound (exchange_on secure max_bytes started events state)
  unfolding exchange_on
  exchange_on-IsSound [] state sound = sound
  exchange_on-IsSound ((now, event) ∷ events) state sound =
      exchange_on-IsSound events (on_net_event secure max_bytes started now event state)
        (event-IsSound now event state sound)
