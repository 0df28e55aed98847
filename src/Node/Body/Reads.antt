-- ===== src/Node/Body/Reads.antt =====
-- What a body is that packages/node/src/body.ts reads.
use mathlib.Core.Path.{subst}
use verif_ai.Common.{
  ℕ, ◌+◌, ◌≤◌, ◌<◌, ◌≡◌, refl, sym, ap, ◌∙◌, Bool, true, false, Option, none, some, List, [], ◌∷◌,
  ◌++◌, ltb, if◌then◌else◌, length, length-append, arith, Bool-cases, inl, inr,
}
use mathlib.Core.List.{append-nil, append_assoc}
use verif_ai.Node.Body.{
  Bytes, BodyChunk, BodyCoding, BodyOutcome, complete, body_too_large, unreadable_body, Collector,
  add_part, concat, finish_body, BodyEvent, raw, decoded, ended, errored, decoder_ended,
  decoder_errored, closed, Reader, settle_body, accept, settled_with, is_identity, on_event,
  read_body,
}

-- Chunks that follow one another from a place to another, none of them empty.
abbrev pub Tile : ℕ → List BodyChunk → ℕ → Type 0
Tile from [] to = from ≡ to
Tile from (c ∷ chunks) to = (c.start ≡ from) × (c.start < c.end) × Tile c.end chunks to

Tile-append :
    (from to at end : ℕ) (chunks : List BodyChunk)
    → Tile from chunks to
    → to < end
    → Tile from (chunks ++ record { at_ms = at; start = to; end = end } ∷ []) end
Tile-append from to at end [] h lt = (sym h, lt, refl)
Tile-append from to at end (c ∷ chunks) h lt = (h.0, h.1, Tile-append c.end to at end chunks h.2 lt)

pub concat-append : (xs : List Bytes) (p : Bytes) → concat (xs ++ p ∷ []) ≡ concat xs ++ p
unfolding concat
concat-append [] p = append-nil p
concat-append (x ∷ xs) p =
    ap (λ t. x ++ t) (concat-append xs p) ∙ sym (append_assoc x (concat xs) p)

module _ (max_bytes : ℕ) where
  -- The chunks tile what was collected, which is within the limit.
  pub record IsCollected (c : Collector) : Type 0 where
    pub tiled : Tile 0 c.chunks c.total
    pub measured : length (concat c.parts) ≡ c.total
    pub bounded : c.total ≤ max_bytes

  -- Whatever body is settled on is as the collector's.
  abbrev pub IsRead : Option BodyOutcome → Type 0
  IsRead (some (complete body chunks now)) = Tile 0 chunks (length body) × (length body ≤ max_bytes)
  IsRead _ = Unit

  add-IsCollected :
      (now : ℕ) (part : Bytes) (c : Collector)
      → IsCollected c
      → IsCollected (add_part max_bytes now part c).0
  unfolding add_part
  add-IsCollected now [] c h = h
  add-IsCollected now (b ∷ part) c h =
      elim (Bool-cases (ltb max_bytes (c.total + length (b ∷ part)))) [
        | inl over ↦ rw over h
        | inr fits ↦ rw fits (record {
          tiled =
              Tile-append 0 c.total now (c.total + length (b ∷ part)) c.chunks h.tiled
                (omega arith);
          measured =
              ap (λ (t : Bytes). length t) (concat-append c.parts (b ∷ part))
              ∙ length-append (concat c.parts) (b ∷ part)
              ∙ ap (λ n. n + length (b ∷ part)) h.measured;
          bounded = ground arith;
        })
      ]

  settle_body-IsRead :
      (outcome : BodyOutcome) (o : Option BodyOutcome)
      → IsRead (some outcome)
      → IsRead o
      → IsRead (settle_body outcome o)
  settle_body-IsRead outcome none h k = h
  settle_body-IsRead outcome (some first) h k = k

  finish-IsRead : (now : ℕ) (c : Collector) → IsCollected c → IsRead (some (finish_body now c))
  finish-IsRead now c h =
      (subst (Tile 0 c.chunks) (sym h.measured) h.tiled, omega (arith, h.measured, h.bounded))

  abbrev pub IsGood : Reader → Type 0
  IsGood reader = IsCollected reader.collector × IsRead reader.outcome

  accept-IsGood :
      (now : ℕ) (part : Bytes) (reader : Reader)
      → IsGood reader
      → IsGood (accept max_bytes now part reader)
  accept-IsGood now part reader (c, o) =
      let collected = add-IsCollected now part reader.collector c in
      elim (Bool-cases (add_part max_bytes now part reader.collector).1) [
        | inl fits ↦ rw fits ((collected, o))
        | inr over ↦ rw over ((collected, settle_body-IsRead body_too_large reader.outcome tt o))
      ]

  done : (now : ℕ) (r : Reader) → IsGood r → IsGood (settled_with (finish_body now r.collector) r)
  done now r (c, o) = (
    c,
    settle_body-IsRead (finish_body now r.collector) r.outcome (finish-IsRead now r.collector c) o,
  )

  when_IsGood : (test : Bool) (x y : Reader) → IsGood x → IsGood y → IsGood (if test then x else y)
  when_IsGood true x y h k = h
  when_IsGood false x y h k = k

  pub on_event-IsGood :
      (coding : BodyCoding) (now : ℕ) (event : BodyEvent) (r : Reader)
      → IsGood r
      → IsGood (on_event coding max_bytes now event r)
  unfolding on_event
  on_event-IsGood coding now (raw part) r h =
      when_IsGood (is_identity coding) _ _ (accept-IsGood now part r h) h
  on_event-IsGood coding now (decoded part) r h =
      when_IsGood r.has_decoder _ _ (accept-IsGood now part r h) h
  on_event-IsGood coding now ended r h = when_IsGood r.has_decoder _ _ h (done now r h)
  on_event-IsGood coding now decoder_ended r h = when_IsGood r.has_decoder _ _ (done now r h) h
  on_event-IsGood coding now errored r h =
      (h.0, settle_body-IsRead unreadable_body r.outcome tt h.1)
  on_event-IsGood coding now decoder_errored r h =
      when_IsGood r.has_decoder _ _ (h.0, settle_body-IsRead unreadable_body r.outcome tt h.1) h
  on_event-IsGood coding now (closed is_complete) r h =
      when_IsGood is_complete _ _ h (h.0, settle_body-IsRead unreadable_body r.outcome tt h.1)

  pub read_body-IsGood :
      (coding : BodyCoding) (events : List (ℕ × BodyEvent)) (r : Reader)
      → IsGood r
      → IsGood (read_body coding max_bytes events r)
  unfolding read_body
  read_body-IsGood coding [] r h = h
  read_body-IsGood coding ((now, event) ∷ events) r h =
      read_body-IsGood coding events (on_event coding max_bytes now event r)
        (on_event-IsGood coding now event r h)
