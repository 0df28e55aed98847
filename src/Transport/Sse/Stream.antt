-- ===== src/Transport/Sse/Stream.antt =====
-- A whole stream through the decoder of packages/core/src/transport/sse.ts: how it is cut into
-- chunks, and when they arrive.
use verif_ai.Common.{
  ℕ, ◌≡◌, refl, sym, ap, ◌∙◌, Bool, false, Option, none, some, List, [], ◌∷◌, ◌++◌, Text, arith,
  map,
}
use mathlib.Core.List.{append-nil, map-append}
use verif_ai.Transport.Sse.Fields.{SseItem, State}
use verif_ai.Transport.Sse.Scan.{scan}
use verif_ai.Transport.Sse.Chunks.{scan-append}
use verif_ai.Transport.Sse.Stamps.{stamp, scan-later, map-stamp-stamp}
use verif_ai.Transport.Sse.Decoder
use verif_ai.Transport.Sse.Decoder.{Bytes, TextDecoders, Decoder}

module _ (platform : TextDecoders) where
  open platform use {Lenient, decode, Fatal, validate, decode-append, validate-append}

  abbrev check : Option Fatal × Bool → Bytes → Option Fatal × Bool
  check (v, invalid) bytes = Decoder.check_bytes platform v invalid bytes

  check-append :
      (v : Option Fatal) (invalid : Bool) (x y : Bytes)
      → check (v, invalid) (x ++ y) ≡ check (check (v, invalid) x) y
  unfolding Decoder.check_bytes
  check-append none invalid x y = refl
  check-append (some v) invalid x y = ground (arith, validate-append v x y)

  abbrev strip : Bool × Bool × Text → Text → Bool × Bool × Text
  strip (started, bom, _) text = Decoder.strip_bom platform started bom text

  -- The mark is looked for once, on the first text that is not empty.
  strip-append :
      (started bom : Bool) (x y : Text)
      → Decoder.strip_bom platform started bom (x ++ y) ≡ (
          let r = Decoder.strip_bom platform started bom x in
          let r' = Decoder.strip_bom platform r.0 r.1 y in (r'.0, r'.1, r.2 ++ r'.2))
  unfolding Decoder.strip_bom
  strip-append started bom [] [] = refl
  strip-append started bom [] (d ∷ y) = refl
  strip-append started bom (c ∷ x) [] = ground (arith, append-nil x)
  strip-append started bom (c ∷ x) (d ∷ y) = ground arith

  scan_after :
      (s : State) (x y : Text)
      → scan 0 s [] (x ++ y) ≡ (
        (scan 0 (scan 0 s [] x).0 [] y).0,
        (scan 0 s [] x).1 ++ map (stamp 0) (scan 0 (scan 0 s [] x).0 [] y).1,
      )
  scan_after s x y = scan-append 0 s [] x y ∙ scan-later 0 (scan 0 s [] x).0 (scan 0 s [] x).1 y

  pushed-append :
      (d : Decoder platform) (x y : Bytes)
      → Decoder.pushed platform d (x ++ y) 0 ≡ (
          let first = Decoder.pushed platform d x 0 in
          let second = Decoder.pushed platform first.0 y 0 in
          (second.0, first.1 ++ map (stamp 0) second.1))
  unfolding Decoder.pushed
  pushed-append d x y =
      let (started, bom, stripped) =
        Decoder.strip_bom platform d.started d.bom (decode d.text x).0 in
      let more = (decode (decode d.text x).1 y).0 in
      rw (check-append d.validator d.invalid x y) (
        rw (decode-append d.text x y) (
          rw (strip-append d.started d.bom (decode d.text x).0 more)
            (rw (scan_after d.state stripped (Decoder.strip_bom platform started bom more).2))))

  -- The time of arrival is only stamped on the items.
  pushed-stamp :
      (d : Decoder platform) (x : Bytes) (t : ℕ)
      → Decoder.pushed platform d x t
        ≡ ((Decoder.pushed platform d x 0).0, map (stamp t) (Decoder.pushed platform d x 0).1)
  unfolding Decoder.pushed
  pushed-stamp d x t =
      rw
        (scan-later t d.state [] (Decoder.strip_bom platform d.started d.bom (decode d.text x).0).2)

  -- The chunks of a body in turn, each with the time of its arrival.
  pub push_all : Decoder platform → List (Bytes × ℕ) → Option (Decoder platform × List SseItem)
  push_all d [] = some (d, [])
  push_all d ((bytes, at_ms) ∷ chunks) = elim (Decoder.push platform d bytes at_ms) [
    | none ↦ none
    | some (d', items) ↦ elim (push_all d' chunks) [
      | none ↦ none
      | some (last, more) ↦ some (last, items ++ more)
    ]
  ]

  abbrev pub whole : List (Bytes × ℕ) → Bytes
  whole [] = []
  whole ((bytes, _) ∷ chunks) = bytes ++ whole chunks

  finished-pushed :
      (d : Decoder platform) (x : Bytes) (t : ℕ)
      → (Decoder.pushed platform d x t).0.finished ≡ d.finished
  unfolding Decoder.pushed
  finished-pushed d x t = refl

  push_open :
      (d : Decoder platform) (x : Bytes) (t : ℕ)
      → d.finished ≡ false
      → Decoder.push platform d x t ≡ some (Decoder.pushed platform d x t)
  unfolding Decoder.push
  push_open d x t h = rw h

  items-pushed :
      (d : Decoder platform) (x : Bytes) (t : ℕ)
      → map (stamp 0) (Decoder.pushed platform d x t).1 ≡ (Decoder.pushed platform d x 0).1
  items-pushed d x t =
      ap (λ r. map (stamp 0) r.1) (pushed-stamp d x t)
      ∙ map-stamp-stamp 0 t (Decoder.pushed platform d x 0).1
      ∙ sym (ap (λ r. r.1) (pushed-stamp d x 0))

  -- `r` is what one push of `x` gives, up to the times on the items.
  abbrev pub SameAs : Decoder platform × List SseItem → Decoder platform × List SseItem → Type 0
  SameAs r once = (r.0 ≡ once.0) × (map (stamp 0) r.1 ≡ once.1)

  SameAs-append :
      (d : Decoder platform) (x y : Bytes) (t : ℕ) (r : Decoder platform × List SseItem)
      → SameAs r (Decoder.pushed platform (Decoder.pushed platform d x t).0 y 0)
      → SameAs
          (r.0, (Decoder.pushed platform d x t).1 ++ r.1)
          (Decoder.pushed platform d (x ++ y) 0)
  SameAs-append d x y t r (same, items) =
      let first = Decoder.pushed platform d x 0 in
      let to_first : (Decoder.pushed platform d x t).0 ≡ first.0 =
        ap (λ w. w.0) (pushed-stamp d x t) in
      (
        same
            ∙ ap (λ d'. (Decoder.pushed platform d' y 0).0) to_first
            ∙ sym (ap (λ w. w.0) (pushed-append d x y)),
        map-append (stamp 0) (Decoder.pushed platform d x t).1 r.1
            ∙ ap (λ l. l ++ map (stamp 0) r.1) (items-pushed d x t)
            ∙ ap (λ l. first.1 ++ l)
                (items
                  ∙ ap (λ d'. (Decoder.pushed platform d' y 0).1) to_first
                  ∙ sym (items-pushed first.0 y 0))
            ∙ sym (ap (λ w. w.1) (pushed-append d x y)),
      )

  push_all-SameAs :
      (bytes : Bytes) (t : ℕ) (chunks : List (Bytes × ℕ)) (d : Decoder platform)
      → d.finished ≡ false
      → (r : Decoder platform × List SseItem) × (push_all d ((bytes, t) ∷ chunks) ≡ some r)
        × SameAs r (Decoder.pushed platform d (bytes ++ whole chunks) 0)
  unfolding push_all
  push_all-SameAs bytes t [] d h =
      let p = Decoder.pushed platform d bytes t in
      (
        (p.0, p.1 ++ []),
        rw (push_open d bytes t h, push_all),
        rw (append-nil p.1, append-nil bytes)
            (ap (λ r. r.0) (pushed-stamp d bytes t), items-pushed d bytes t),
      )
  push_all-SameAs bytes t ((next, u) ∷ chunks) d h =
      let p = Decoder.pushed platform d bytes t in
      let (r, ran, same) = push_all-SameAs next u chunks p.0 (finished-pushed d bytes t ∙ h) in
      (
        (r.0, p.1 ++ r.1),
        rw (push_open d bytes t h, push_all) (rw ran),
        SameAs-append d bytes (next ++ whole chunks) t r same,
      )

  -- However a body is cut into chunks, and whenever they arrive, an open decoder takes them all: it
  -- ends in the state, and has returned the items, of one push of the whole body, up to the times
  -- stamped on the items.
  pub push_all-whole :
      (bytes : Bytes) (t : ℕ) (chunks : List (Bytes × ℕ)) (d : Decoder platform)
      → d.finished ≡ false
      → (r once : Decoder platform × List SseItem) × (push_all d ((bytes, t) ∷ chunks) ≡ some r)
        × (Decoder.push platform d (bytes ++ whole chunks) 0 ≡ some once)
        × (r.0 ≡ once.0)
        × (map (stamp 0) r.1 ≡ once.1)
  push_all-whole bytes t chunks d h =
      let (r, ran, same) = push_all-SameAs bytes t chunks d h in
      (
        r,
        Decoder.pushed platform d (bytes ++ whole chunks) 0,
        ran,
        push_open d (bytes ++ whole chunks) 0 h,
        same.0,
        same.1,
      )
