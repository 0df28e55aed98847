-- ===== src/Node/Exchange/Stops.antt =====
-- That an exchange of packages/node/src/transport.ts comes to an end once it is stopped.
use mathlib.Core.Path.{subst}
use verif_ai.Common.{
  ℕ, ◌≡◌, refl, ap, ◌∙◌, Bool, true, Option, none, some, List, [], ◌∷◌, ◌++◌, Option-cases, inl,
  inr, arith,
}
use verif_ai.Node.Exchange.{
  Cause, kind_of, NodeResult, NetEvent, on_stop, ExchangeState, fail, on_net_event, exchange_on,
  new_exchange,
}
use verif_ai.Node.Exchange.Settles.{
  is_settled, Honest, IsSound, Stopped, is_settled-result, exchange_on-IsSound,
}
use verif_ai.Node.Exchange.Stays.{exchange_on-Stays}

module _ (secure : Bool) (max_bytes started : ℕ) where
  exchange_on-append :
      (front back : List (ℕ × NetEvent)) (state : ExchangeState)
      → exchange_on secure max_bytes started (front ++ back) state
        ≡ exchange_on secure max_bytes started back
            (exchange_on secure max_bytes started front state)
  unfolding exchange_on
  exchange_on-append [] back state = refl
  exchange_on-append ((now, event) ∷ front) back state =
      exchange_on-append front back (on_net_event secure max_bytes started now event state)

  stop-settled :
      (now : ℕ) (cause : Cause) (state : ExchangeState)
      → IsSound secure max_bytes started state
      → is_settled (on_net_event secure max_bytes started now (on_stop cause) state).result ≡ true
  unfolding on_net_event
  stop-settled now cause state sound = by_reason state.reason refl
    where
      by_reason :
          (r : Option Cause)
          → state.reason ≡ r
          → is_settled
              (elim r as (λ x. ExchangeState) [
                | some first ↦ state
                | none ↦
                    fail started now (kind_of cause) none (record state { reason = some cause })
              ]).result
            ≡ true
      by_reason (some first) e =
          subst (λ o. Stopped secure max_bytes started o state.result) e sound.stopped
      by_reason none e = is_settled-result secure max_bytes started _ state.result

none-unsettled : (o : Option NodeResult) → is_settled o ≡ true → o ≡ none → ⊥
none-unsettled none h e = ground arith
none-unsettled (some result) h e = ground arith

new_exchange-IsSound :
    (secure : Bool) (max_bytes started : ℕ) → IsSound secure max_bytes started new_exchange
new_exchange-IsSound secure max_bytes started = record { honest = tt; good = tt; stopped = tt }

-- An exchange comes to an end once the deadline passes or the caller stops it, whatever came before:
-- it then has a result, which is the one that it has after any further events. A response in it has a
-- body within the limit, with chunks that follow one another from its start to its end; and a failure
-- to connect, or to agree on TLS, says that the request was not sent.
pub exchange_on-stopped :
    (secure : Bool) (max_bytes started : ℕ) (front back : List (ℕ × NetEvent)) (now : ℕ)
    (cause : Cause)
    → (result : NodeResult) × ((exchange_on secure max_bytes started
          (front ++ (now, on_stop cause) ∷ [])
          new_exchange).result
        ≡ some result)
      × ((exchange_on secure max_bytes started
            (front ++ (now, on_stop cause) ∷ back)
            new_exchange).result
          ≡ some result)
      × Honest secure max_bytes started (some result)
unfolding exchange_on
exchange_on-stopped secure max_bytes started front back now cause =
    let at_stop = exchange_on secure max_bytes started front new_exchange in
    let after_stop = on_net_event secure max_bytes started now (on_stop cause) at_stop in
    let sound =
      exchange_on-IsSound secure max_bytes started front new_exchange
        (new_exchange-IsSound secure max_bytes started) in
    elim (Option-cases after_stop.result) [
      | inl unsettled ↦ absurd (
          none-unsettled after_stop.result
            (stop-settled secure max_bytes started now cause at_stop sound) unsettled)
      | inr (result, settled) ↦ (
        result,
        ap (λ s. s.result)
              (exchange_on-append secure max_bytes started front ((now, on_stop cause) ∷ [])
                new_exchange)
            ∙ settled,
        ap (λ s. s.result)
              (exchange_on-append secure max_bytes started front ((now, on_stop cause) ∷ back)
                new_exchange)
            ∙ exchange_on-Stays secure max_bytes started result back after_stop settled,
        subst (Honest secure max_bytes started) settled
            (exchange_on-IsSound secure max_bytes started ((now, on_stop cause) ∷ []) at_stop
              sound).honest,
      )
    ]
