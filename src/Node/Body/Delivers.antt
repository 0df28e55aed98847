-- ===== src/Node/Body/Delivers.antt =====
-- That a body which packages/node/src/body.ts reads is all that was delivered of it.
use mathlib.Core.Path.{subst}
use verif_ai.Common.{
  ℕ, ◌+◌, ◌≤◌, ◌≡◌, refl, sym, ap, ◌∙◌, Bool, true, false, none, some, List, [], ◌∷◌, ◌++◌, ltb,
  if◌then◌else◌, length, arith, Bool-cases, ◌⊎◌, inl, inr,
}
use mathlib.Core.List.{append-nil, append_assoc}
use verif_ai.Node.Body.{
  Bytes, BodyChunk, BodyCoding, BodyOutcome, complete, body_too_large, unreadable_body, add_part,
  concat, finish_body, BodyEvent, raw, decoded, ended, errored, decoder_ended, decoder_errored,
  closed, Reader, new_reader, accept, settled_with, is_identity, on_event, read_body,
}
use verif_ai.Node.Body.Reads.{Tile, concat-append, IsRead, read_body-IsGood}

-- What an event delivers, and whether a decoder is started after it.
abbrev pub delivered_by : BodyCoding → Bool → BodyEvent → Bytes
delivered_by coding has_decoder (raw part) = if is_identity coding then part else []
delivered_by coding has_decoder (decoded part) = if has_decoder then part else []
delivered_by coding has_decoder _ = []

abbrev pub started_after : BodyCoding → Bool → BodyEvent → Bool
started_after coding has_decoder (raw part) = if is_identity coding then has_decoder else true
started_after coding has_decoder _ = has_decoder

-- What events deliver: the stream's parts as they are, or the decoder's.
unfoldable pub delivered : BodyCoding → Bool → List (ℕ × BodyEvent) → Bytes
delivered coding has_decoder [] = []
delivered coding has_decoder ((now, event) ∷ events) =
    delivered_by coding has_decoder event
    ++ delivered coding (started_after coding has_decoder event) events

some_same : {A : Type 0} {a b : A} → some a ≡ some b → a ≡ b
some_same h = ground arith

none-some : {A : Type 0} {a : A} → none ≡ some a → ⊥
none-some h = ground arith

body_of :
    {body body' : Bytes} {chunks chunks' : List BodyChunk} {now now' : ℕ}
    → complete body chunks now ≡ complete body' chunks' now'
    → body ≡ body'
body_of h = ground arith

module _ (coding : BodyCoding) (max_bytes : ℕ) where
  -- An outcome stays.
  stays :
      (event : BodyEvent) (now : ℕ) (r : Reader) (o : BodyOutcome)
      → r.outcome ≡ some o
      → (on_event coding max_bytes now event r).outcome ≡ some o
  unfolding on_event
  stays (raw part) now r o h = ground arith
  stays (decoded part) now r o h = ground arith
  stays ended now r o h = ground arith
  stays decoder_ended now r o h = ground arith
  stays errored now r o h = ground arith
  stays decoder_errored now r o h = ground arith
  stays (closed is_complete) now r o h = ground arith

  pub all_stay :
      (events : List (ℕ × BodyEvent)) (r : Reader) (o : BodyOutcome)
      → r.outcome ≡ some o
      → (read_body coding max_bytes events r).outcome ≡ some o
  unfolding read_body
  all_stay [] r o h = h
  all_stay ((now, event) ∷ events) r o h =
      all_stay events (on_event coding max_bytes now event r) o (stays event now r o h)

  -- A reader goes on with what was delivered, or settles on what it has.
  abbrev GoesOn : Bytes → Bool → Reader → Reader → Type 0
  GoesOn part has_decoder r next =
      (next.outcome ≡ none)
      × (concat next.collector.parts ≡ concat r.collector.parts ++ part)
      × (next.has_decoder ≡ has_decoder)

  abbrev Settles : Reader → Reader → Type 0
  Settles r next =
      (o : BodyOutcome) × (next.outcome ≡ some o)
      × ((body : Bytes) (chunks : List BodyChunk) (now : ℕ)
          → o ≡ complete body chunks now
          → body ≡ concat r.collector.parts)

  accepts :
      (part : Bytes) (now : ℕ) (r : Reader)
      → r.outcome ≡ none
      → GoesOn part r.has_decoder r (accept max_bytes now part r)
        ⊎ Settles r (accept max_bytes now part r)
  unfolding add_part
  accepts [] now r h = inl (h, sym (append-nil (concat r.collector.parts)), refl)
  accepts (b ∷ part) now r h =
      elim (Bool-cases (ltb max_bytes (r.collector.total + length (b ∷ part)))) [
        | inl over ↦ inr (body_too_large, ground arith, λ body chunks t e. absurd (ground arith))
        | inr fits ↦
            inl (ground arith, rw fits (concat-append r.collector.parts (b ∷ part)), ground arith)
      ]

  same : (r : Reader) → r.outcome ≡ none → GoesOn [] r.has_decoder r r ⊎ Settles r r
  same r h = inl (h, sym (append-nil (concat r.collector.parts)), refl)

  settles :
      (outcome : BodyOutcome) (r : Reader)
      → r.outcome ≡ none
      → ((body : Bytes) (chunks : List BodyChunk) (now : ℕ)
          → outcome ≡ complete body chunks now
          → body ≡ concat r.collector.parts)
      → Settles r (settled_with outcome r)
  settles outcome r h k = (outcome, rw h refl, k)

  abbrev Progress : Bytes → Bool → Reader → Reader → Type 0
  Progress part has_decoder r next = GoesOn part has_decoder r next ⊎ Settles r next

  if_parts :
      (test has_decoder : Bool) (part : Bytes) (r x y : Reader)
      → Progress part has_decoder r x
      → Progress [] has_decoder r y
      → Progress (if test then part else []) has_decoder r (if test then x else y)
  if_parts true has_decoder part r x y h k = h
  if_parts false has_decoder part r x y h k = k

  if_none :
      (test has_decoder : Bool) (r x y : Reader)
      → Progress [] has_decoder r x
      → Progress [] has_decoder r y
      → Progress [] has_decoder r (if test then x else y)
  if_none true has_decoder r x y h k = h
  if_none false has_decoder r x y h k = k

  finishes :
      (now : ℕ) (r : Reader)
      → r.outcome ≡ none
      → Progress [] r.has_decoder r (settled_with (finish_body now r.collector) r)
  finishes now r h =
      inr (settles (finish_body now r.collector) r h (λ body chunks t e. body_of (sym e)))

  breaks :
      (r : Reader) → r.outcome ≡ none → Progress [] r.has_decoder r (settled_with unreadable_body r)
  breaks r h = inr (settles unreadable_body r h (λ body chunks t e. absurd (ground arith)))

  one_event :
      (event : BodyEvent) (now : ℕ) (r : Reader)
      → r.outcome ≡ none
      → GoesOn
          (delivered_by coding r.has_decoder event)
          (started_after coding r.has_decoder event)
          r
          (on_event coding max_bytes now event r)
        ⊎ Settles r (on_event coding max_bytes now event r)
  unfolding on_event
  one_event (raw part) now r h = elim (Bool-cases (is_identity coding)) [
    | inl plain ↦ rw plain (accepts part now r h)
    | inr coded ↦ rw coded (inl (h, sym (append-nil (concat r.collector.parts)), refl))
  ]
  one_event (decoded part) now r h =
      if_parts r.has_decoder r.has_decoder part r _ _ (accepts part now r h) (same r h)
  one_event ended now r h = if_none r.has_decoder r.has_decoder r _ _ (same r h) (finishes now r h)
  one_event decoder_ended now r h =
      if_none r.has_decoder r.has_decoder r _ _ (finishes now r h) (same r h)
  one_event errored now r h = breaks r h
  one_event decoder_errored now r h =
      if_none r.has_decoder r.has_decoder r _ _ (breaks r h) (same r h)
  one_event (closed is_complete) now r h =
      if_none is_complete r.has_decoder r _ _ (same r h) (breaks r h)

  -- The body is what was collected before and what a front of the events delivers.
  Whole : Bool → Bytes → Bytes → List (ℕ × BodyEvent) → Type 0
  Whole has_decoder before body events =
      (front : List (ℕ × BodyEvent)) × (back : List (ℕ × BodyEvent)) × (events ≡ front ++ back)
      × (body ≡ before ++ delivered coding has_decoder front)

  read_on :
      (events : List (ℕ × BodyEvent)) (r : Reader) (body : Bytes) (chunks : List BodyChunk)
      (now : ℕ)
      → r.outcome ≡ none
      → (read_body coding max_bytes events r).outcome ≡ some (complete body chunks now)
      → Whole r.has_decoder (concat r.collector.parts) body events
  unfolding read_body delivered Whole
  read_on [] r body chunks now h e = absurd (none-some (sym h ∙ e))
  read_on ((at, event) ∷ events) r body chunks now h e = elim (one_event event at r h) [
    | inl (going, parts, has) ↦
        let next = on_event coding max_bytes at event r in
        let (front, back, split, whole) = read_on events next body chunks now going e in
        (
          (at, event) ∷ front,
          back,
          ap (λ l. (at, event) ∷ l) split,
          whole
              ∙ ap (λ t. t ++ delivered coding next.has_decoder front) parts
              ∙ append_assoc (concat r.collector.parts) (delivered_by coding r.has_decoder event) _
              ∙ ap
                  (λ d.
                    concat r.collector.parts
                    ++ (delivered_by coding r.has_decoder event ++ delivered coding d front))
                  has,
        )
    | inr (o, settled, reads) ↦ (
      [],
      (at, event) ∷ events,
      refl,
      reads body chunks now
            (some_same (sym (all_stay events (on_event coding max_bytes at event r) o settled) ∙ e))
          ∙ sym (append-nil (concat r.collector.parts)),
    )
  ]

-- A body that is read is complete and within bounds: it is all that the events delivered up to some
-- point, it is no longer than the limit, and its chunks are not empty and follow one another from its
-- start to its end.
pub read_body_lem :
    (coding : BodyCoding) (max_bytes : ℕ) (events : List (ℕ × BodyEvent)) (body : Bytes)
    (chunks : List BodyChunk) (now : ℕ)
    → (read_body coding max_bytes events new_reader).outcome ≡ some (complete body chunks now)
    → ((front : List (ℕ × BodyEvent)) × (back : List (ℕ × BodyEvent)) × (events ≡ front ++ back)
        × (body ≡ delivered coding false front))
      × (length body ≤ max_bytes)
      × Tile 0 chunks (length body)
unfolding concat Whole
read_body_lem coding max_bytes events body chunks now e =
    let (collected, good) =
      read_body-IsGood max_bytes coding events new_reader
        (record { tiled = refl; measured = refl; bounded = omega arith }, tt) in
    let (tiled, bounded) = subst (IsRead max_bytes) e good in
    (read_on coding max_bytes events new_reader body chunks now refl e, bounded, tiled)
