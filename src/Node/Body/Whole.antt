-- ===== src/Node/Body/Whole.antt =====
-- What packages/node/src/body.ts makes of a body that is sent as it is.
use mathlib.Core.Path.{subst}
use verif_ai.Common.{
  ℕ, ◌+◌, ◌≤◌, ◌≡◌, refl, sym, ap, ◌∙◌, Bool, true, false, Option, none, some, List, [], ◌∷◌, ◌++◌,
  ltb, if◌then◌else◌, length, length-append, map, arith, Bool-cases, inl, inr,
}
use mathlib.Core.List.{append-nil, append_assoc}
use verif_ai.Node.Body.{
  Bytes, BodyChunk, identity, BodyOutcome, complete, body_too_large, add_part, concat, BodyEvent,
  raw, ended, Reader, new_reader, on_event, read_body,
}
use verif_ai.Node.Body.Reads.{concat-append}
use verif_ai.Node.Body.Delivers.{all_stay}

-- The parts of a body as they come, each with its time, and what they come to.
abbrev pub as_raw : ℕ × Bytes → ℕ × BodyEvent
as_raw (now, part) = (now, raw part)

unfoldable pub whole_of : List (ℕ × Bytes) → Bytes
whole_of [] = []
whole_of ((now, part) ∷ parts) = part ++ whole_of parts

-- Settled as a body is that is within the limit, or is not.
pub record IsComplete (body : Bytes) (now : ℕ) (outcome : Option BodyOutcome) : Type 0 where
  pub chunks : List BodyChunk
  pub settled : outcome ≡ some (complete body chunks now)

abbrev pub IsSettled : Bool → Bytes → ℕ → Option BodyOutcome → Type 0
IsSettled over body now outcome =
    if over then outcome ≡ some body_too_large else IsComplete body now outcome

-- What was collected is within the limit and the reader goes on.
record IsOpen (max_bytes : ℕ) (r : Reader) : Type 0 where
  going : r.outcome ≡ none
  plain : r.has_decoder ≡ false
  measured : r.collector.total ≡ length (concat r.collector.parts)
  bounded : r.collector.total ≤ max_bytes

when_over :
    (over : Bool) (body : Bytes) (now : ℕ) (outcome : Option BodyOutcome)
    → over ≡ true
    → outcome ≡ some body_too_large
    → IsSettled over body now outcome
when_over over body now outcome e h = rw e h

when_within :
    (over : Bool) (body : Bytes) (now : ℕ) (outcome : Option BodyOutcome)
    → over ≡ false
    → IsComplete body now outcome
    → IsSettled over body now outcome
when_within over body now outcome e h = rw e h

exceeds :
    (xs part rest : Bytes) (total max_bytes : ℕ)
    → total ≡ length xs
    → ltb max_bytes (total + length part) ≡ true
    → ltb max_bytes (length (xs ++ (part ++ rest))) ≡ true
exceeds xs part rest total max_bytes measured over =
    ground (arith, length-append xs (part ++ rest), length-append part rest)

module _ (max_bytes now : ℕ) (later : List (ℕ × BodyEvent)) where
  abbrev rest_of : List (ℕ × Bytes) → List (ℕ × BodyEvent)
  rest_of parts = map as_raw parts ++ (now, ended) ∷ later

  -- What is settled on from a reader on.
  abbrev Settled : List (ℕ × Bytes) → Reader → Type 0
  Settled parts r =
      IsSettled (ltb max_bytes (length (concat r.collector.parts ++ whole_of parts)))
        (concat r.collector.parts ++ whole_of parts) now
        (read_body identity max_bytes (rest_of parts) r).outcome

  ends_here : (r : Reader) → IsOpen max_bytes r → Settled [] r
  unfolding read_body on_event whole_of
  ends_here r h =
      when_within _ _ now _ (rw (append-nil (concat r.collector.parts)) (ground arith)) (record {
        chunks = r.collector.chunks;
        settled =
            all_stay identity max_bytes later (on_event identity max_bytes now ended r) _
              (rw (append-nil (concat r.collector.parts)) (rw h.plain (rw h.going refl)));
      })

  part_fits :
      (at : ℕ) (b : ℕ) (part : Bytes) (r : Reader)
      → IsOpen max_bytes r
      → ltb max_bytes (r.collector.total + length (b ∷ part)) ≡ false
      → IsOpen max_bytes (on_event identity max_bytes at (raw (b ∷ part)) r)
        × (concat (on_event identity max_bytes at (raw (b ∷ part)) r).collector.parts
            ≡ concat r.collector.parts ++ b ∷ part)
  unfolding on_event add_part
  part_fits at b part r h fits =
      let joined = concat-append r.collector.parts (b ∷ part) in
      rw fits (
        record {
          going = h.going;
          plain = h.plain;
          measured =
              ap (λ n. n + length (b ∷ part)) h.measured
              ∙ sym (length-append (concat r.collector.parts) (b ∷ part))
              ∙ ap (λ (t : Bytes). length t) (sym joined);
          bounded = ground arith;
        },
        joined,
      )

  too_large :
      (at : ℕ) (b : ℕ) (part : Bytes) (r : Reader)
      → IsOpen max_bytes r
      → ltb max_bytes (r.collector.total + length (b ∷ part)) ≡ true
      → (on_event identity max_bytes at (raw (b ∷ part)) r).outcome ≡ some body_too_large
  unfolding on_event add_part
  too_large at b part r h over = rw over (rw h.going refl)

  read_raw : (parts : List (ℕ × Bytes)) (r : Reader) → IsOpen max_bytes r → Settled parts r
  unfolding read_body whole_of on_event add_part
  read_raw [] r h = ends_here r h
  read_raw ((at, []) ∷ parts) r h = read_raw parts r h
  read_raw ((at, b ∷ part) ∷ parts) r h =
      elim (Bool-cases (ltb max_bytes (r.collector.total + length (b ∷ part)))) [
        | inl over ↦
            when_over _ _ now _
              (exceeds (concat r.collector.parts) (b ∷ part) (whole_of parts) _ max_bytes h.measured
                over)
              (all_stay identity max_bytes (rest_of parts)
                (on_event identity max_bytes at (raw (b ∷ part)) r) body_too_large
                (too_large at b part r h over))
        | inr fits ↦
            let (still, joined) = part_fits at b part r h fits in
            let all =
              ap (λ t. t ++ whole_of parts) joined
              ∙ append_assoc (concat r.collector.parts) (b ∷ part) (whole_of parts) in
            subst
              (λ body.
                IsSettled (ltb max_bytes (length body)) body now
                  (read_body identity max_bytes (rest_of parts)
                    (on_event identity max_bytes at (raw (b ∷ part)) r)).outcome)
              all (read_raw parts (on_event identity max_bytes at (raw (b ∷ part)) r) still)
      ]

-- A body that is sent as it is, in whatever parts at whatever times, and then ends, is read as those
-- parts in their order, at the time it ends, where they are within the limit together, and is refused
-- as too large where they are not.
pub read_body_whole :
    (parts : List (ℕ × Bytes)) (max_bytes now : ℕ) (later : List (ℕ × BodyEvent))
    → IsSettled
        (ltb max_bytes (length (whole_of parts)))
        (whole_of parts)
        now
        (read_body identity max_bytes (map as_raw parts ++ (now, ended) ∷ later) new_reader).outcome
unfolding concat
read_body_whole parts max_bytes now later =
    read_raw max_bytes now later parts new_reader
      (record { going = refl; plain = refl; measured = refl; bounded = omega arith })
