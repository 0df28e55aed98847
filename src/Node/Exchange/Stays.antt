-- ===== src/Node/Exchange/Stays.antt =====
-- That the first result of an exchange of packages/node/src/transport.ts stays.
use verif_ai.Common.{
  ℕ, ◌≡◌, refl, Bool, true, false, Option, none, some, List, [], ◌∷◌, if◌then◌else◌,
}
use verif_ai.Transport.Headers.{HeaderPair, pairs_from_raw_headers}
use verif_ai.Node.Body.{
  BodyCoding, unsupported, identity, decoded_by, body_coding, BodyOutcome, complete, body_too_large,
  unreadable_body, BodyEvent, on_event,
}
use verif_ai.Node.Exchange.{
  Cause, kind_of, NodeResult, exchanging, ResponseHead, NetEvent, on_socket, on_connect,
  on_secure_connect, on_close, on_error, on_response, on_body, on_stop, Reading, ExchangeState,
  settle_exchange, fail, once_read, on_body_event, with_coding, with_headers, on_net_event,
  exchange_on,
}

module _ (secure : Bool) (max_bytes started : ℕ) where
  -- The first result stays.
  abbrev Stays : NodeResult → ExchangeState → Type 0
  Stays result state = state.result ≡ some result

  settle-Stays :
      (result other : NodeResult) (state : ExchangeState)
      → Stays result state
      → Stays result (settle_exchange other state)
  settle-Stays result other state h = rw h refl

  when-Stays :
      (result : NodeResult) (test : Bool) (x y : ExchangeState)
      → Stays result x
      → Stays result y
      → Stays result (if test then x else y)
  when-Stays result true x y h k = h
  when-Stays result false x y h k = k

  once_read-Stays :
      (result : NodeResult) (now : ℕ) (reading : Reading) (o : Option BodyOutcome)
      (state : ExchangeState)
      → Stays result state
      → Stays result (once_read secure max_bytes started now reading o state)
  once_read-Stays result now reading none state h = h
  once_read-Stays result now reading (some body_too_large) state h = settle-Stays result _ state h
  once_read-Stays result now reading (some unreadable_body) state h = settle-Stays result _ state h
  once_read-Stays result now reading (some (complete body chunks at)) state h =
      settle-Stays result _ state h

  on_body_event-Stays :
      (result : NodeResult) (now : ℕ) (event : BodyEvent) (reading : Option Reading)
      (state : ExchangeState)
      → Stays result state
      → Stays result (on_body_event secure max_bytes started now event reading state)
  on_body_event-Stays result now event none state h = h
  on_body_event-Stays result now event (some reading) state h =
      let going = record reading {
        reader = on_event reading.coding max_bytes now event reading.reader;
      } in
      once_read-Stays result now going going.reader.outcome (record state { reading = some going })
        h

  headers-Stays :
      (result : NodeResult) (now : ℕ) (head : ResponseHead) (headers : Option (List HeaderPair))
      (state : ExchangeState)
      → Stays result state
      → Stays result (with_headers secure max_bytes started now head headers state)
  headers-Stays result now head none state h = h
  headers-Stays result now head (some headers) state h = by_coding (body_coding headers)
    where
      by_coding :
          (coding : BodyCoding)
          → Stays result (with_coding secure max_bytes started now head headers coding state)
      by_coding unsupported = settle-Stays result _ state h
      by_coding identity = h
      by_coding (decoded_by decoder) = h

  stop-Stays :
      (result : NodeResult) (now : ℕ) (cause : Cause) (state : ExchangeState)
      → Stays result state
      → Stays result (on_net_event secure max_bytes started now (on_stop cause) state)
  unfolding on_net_event
  stop-Stays result now cause state h = by_reason state.reason
    where
      by_reason :
          (r : Option Cause)
          → Stays result (elim r [
            | some first ↦ state
            | none ↦ fail started now (kind_of cause) none (record state { reason = some cause })
          ])
      by_reason (some first) = h
      by_reason none = rw h refl

  event-Stays :
      (result : NodeResult) (now : ℕ) (event : NetEvent) (state : ExchangeState)
      → Stays result state
      → Stays result (on_net_event secure max_bytes started now event state)
  unfolding on_net_event
  event-Stays result now (on_socket was_reused) state h = when-Stays result was_reused _ _ h h
  event-Stays result now on_connect state h = when-Stays result state.awaits_connect _ _ h h
  event-Stays result now on_secure_connect state h = when-Stays result state.awaits_secure _ _ h h
  event-Stays result now (on_error was_unpinned) state h =
      when-Stays result was_unpinned _ _ (settle-Stays result _ state h)
        (settle-Stays result _ state h)
  event-Stays result now on_close state h =
      when-Stays result state.responded _ _ h (settle-Stays result _ state h)
  event-Stays result now (on_response head) state h =
      headers-Stays result now head (pairs_from_raw_headers head.raw_headers)
        (record state { responded = true; phase = exchanging }) h
  event-Stays result now (on_body event) state h =
      on_body_event-Stays result now event state.reading state h
  event-Stays result now (on_stop cause) state h = stop-Stays result now cause state h

  pub exchange_on-Stays :
      (result : NodeResult) (events : List (ℕ × NetEvent)) (state : ExchangeState)
      → state.result ≡ some result
      → (exchange_on secure max_bytes started events state).result ≡ some result
  unfolding exchange_on
  exchange_on-Stays result [] state h = h
  exchange_on-Stays result ((now, event) ∷ events) state h =
      exchange_on-Stays result events (on_net_event secure max_bytes started now event state)
        (event-Stays result now event state h)
