-- ===== src/Transport/Sse/Chunks.antt =====
-- How a stream is cut into chunks does not change what the decoder of
-- packages/core/src/transport/sse.ts reads from it.
use verif_ai.Common.{
  ℕ, ◌≡◌, refl, sym, ap, ◌∙◌, true, false, inl, inr, List, [], ◌∷◌, ◌++◌, Text, arith, Bool-cases,
}
use mathlib.Core.Path.{subst}
use mathlib.Core.List.{append_assoc, append-nil}
use verif_ai.Transport.Sse.Fields.{SseItem, State, process_line}
use verif_ai.Transport.Sse.Steps.{
  keep-keep, kind-cases, after_return, after_feed, step_plain, step_feed, step_return, scan-nil,
  not_pending, scan_of_pending,
}
use verif_ai.Transport.Sse.Scan.{
  count_lf, count_crlf, count_cr, keep, settle_pending_cr, scan_from, scan,
}

-- What was sliced may as well have been added to the line.
scan_from-keep :
    (at_ms : ℕ) (s : State) (out : List SseItem) (slice more rest : Text)
    → scan_from at_ms (keep slice s) out more rest ≡ scan_from at_ms s out (slice ++ more) rest
unfolding scan_from
scan_from-keep at_ms s out slice more [] = ap (λ s'. (s', out)) (keep-keep s slice more)
scan_from-keep at_ms s out slice more (c ∷ rest) = elim (kind-cases c) [
  | inl k ↦
      step_plain at_ms (keep slice s) out more c rest k
      ∙ scan_from-keep at_ms s out slice (more ++ c ∷ []) rest
      ∙ ap (λ l. scan_from at_ms s out l rest) (sym (append_assoc slice more (c ∷ [])))
      ∙ sym (step_plain at_ms s out (slice ++ more) c rest k)
  | inr (inl k) ↦
      step_feed at_ms (keep slice s) out more c rest k
      ∙ ap (λ u. after_feed at_ms rest (process_line u at_ms out)) (keep-keep s slice more)
      ∙ sym (step_feed at_ms s out (slice ++ more) c rest k)
  | inr (inr k) ↦
      step_return at_ms (keep slice s) out more c rest k
      ∙ ap (λ u. after_return at_ms rest (process_line u at_ms out)) (keep-keep s slice more)
      ∙ sym (step_return at_ms s out (slice ++ more) c rest k)
]

-- A complete line leaves an open CR alone.
pending_cr-process_line :
    (s : State) (at_ms : ℕ) (out : List SseItem)
    → (process_line s at_ms out).0.pending_cr ≡ s.pending_cr
unfolding process_line
pending_cr-process_line s at_ms out = ground arith

abbrev pub resume : ℕ → Text → State × List SseItem → State × List SseItem
resume at_ms decoded (s, out) = scan at_ms s out decoded

scan_of_settled :
    (at_ms : ℕ) (s : State) (out : List SseItem) (rest : Text)
    → s.pending_cr ≡ false
    → scan at_ms s out rest ≡ scan_from at_ms s out [] rest
unfolding scan
scan_of_settled at_ms s out [] p = refl
scan_of_settled at_ms s out (d ∷ rest) p = rw (p, settle_pending_cr)

abbrev Settled : State × List SseItem → Type 0
Settled w = w.0.pending_cr ≡ false

after_return-nil :
    (at_ms : ℕ) (y : Text) (w : State × List SseItem)
    → Settled w
    → after_return at_ms y w ≡ resume at_ms y (after_return at_ms [] w)
after_return-nil at_ms y w p =
    ap (λ s. after_return at_ms y (s, w.1)) (sym (not_pending w.0 p))
    ∙ sym (scan_of_pending at_ms w.0 w.1 y)
    ∙ (unfold after_return in refl)

after_return-append :
    (at_ms : ℕ) (d : ℕ) (x y : Text) (w : State × List SseItem)
    → scan_from at_ms (count_crlf w.0) w.1 [] (x ++ y)
      ≡ resume at_ms y (scan_from at_ms (count_crlf w.0) w.1 [] x)
    → scan_from at_ms (count_cr w.0) w.1 [] (d ∷ (x ++ y))
      ≡ resume at_ms y (scan_from at_ms (count_cr w.0) w.1 [] (d ∷ x))
    → after_return at_ms (d ∷ (x ++ y)) w ≡ resume at_ms y (after_return at_ms (d ∷ x) w)
unfolding after_return
after_return-append at_ms d x y w feeds others = elim (kind-cases d) [
  | inl k ↦ rw (k, after_return) others
  | inr (inl k) ↦ rw (k, after_return) feeds
  | inr (inr k) ↦ rw (k, after_return) others
]

-- Scanning a text is scanning a first part of it, then the rest.
module _ (at_ms : ℕ) (y : Text) where
  scan_from-append :
      (s : State) (out : List SseItem) (slice x : Text)
      → s.pending_cr ≡ false
      → scan_from at_ms s out slice (x ++ y) ≡ resume at_ms y (scan_from at_ms s out slice x)
  unfolding after_feed
  scan_from-append s out slice [] p =
      ap (λ l. scan_from at_ms s out l y) (sym (append-nil slice))
      ∙ sym (scan_from-keep at_ms s out slice [] y)
      ∙ sym (scan_of_settled at_ms (keep slice s) out y p)
      ∙ (unfold scan_from in refl)
  scan_from-append s out slice (c ∷ []) p = elim (kind-cases c) [
    | inl k ↦
        step_plain at_ms s out slice c y k
        ∙ scan_from-append s out (slice ++ c ∷ []) [] p
        ∙ ap (resume at_ms y) (sym (step_plain at_ms s out slice c [] k))
    | inr (inl k) ↦
        step_feed at_ms s out slice c y k
        ∙ scan_from-append (count_lf (process_line (keep slice s) at_ms out).0)
            (process_line (keep slice s) at_ms out).1 [] []
            (pending_cr-process_line (keep slice s) at_ms out ∙ p)
        ∙ ap (resume at_ms y) (sym (step_feed at_ms s out slice c [] k))
    | inr (inr k) ↦
        step_return at_ms s out slice c y k
        ∙ after_return-nil at_ms y (process_line (keep slice s) at_ms out)
            (pending_cr-process_line (keep slice s) at_ms out ∙ p)
        ∙ ap (resume at_ms y) (sym (step_return at_ms s out slice c [] k))
  ]
  scan_from-append s out slice (c ∷ d ∷ x) p = elim (kind-cases c) [
    | inl k ↦
        step_plain at_ms s out slice c (d ∷ (x ++ y)) k
        ∙ scan_from-append s out (slice ++ c ∷ []) (d ∷ x) p
        ∙ ap (resume at_ms y) (sym (step_plain at_ms s out slice c (d ∷ x) k))
    | inr (inl k) ↦
        let w = process_line (keep slice s) at_ms out in
        step_feed at_ms s out slice c (d ∷ (x ++ y)) k
        ∙ scan_from-append (count_lf w.0) w.1 [] (d ∷ x)
            (pending_cr-process_line (keep slice s) at_ms out ∙ p)
        ∙ ap (resume at_ms y) (sym (step_feed at_ms s out slice c (d ∷ x) k))
    | inr (inr k) ↦
        let w = process_line (keep slice s) at_ms out in
        let q : w.0.pending_cr ≡ false = pending_cr-process_line (keep slice s) at_ms out ∙ p in
        step_return at_ms s out slice c (d ∷ (x ++ y)) k
        ∙ after_return-append at_ms d x y w (scan_from-append (count_crlf w.0) w.1 [] x q)
            (scan_from-append (count_cr w.0) w.1 [] (d ∷ x) q)
        ∙ ap (resume at_ms y) (sym (step_return at_ms s out slice c (d ∷ x) k))
  ]

resume-eq :
    (at_ms : ℕ) (s : State) (out : List SseItem) (y : Text)
    → scan at_ms s out y ≡ resume at_ms y (s, out)
resume-eq at_ms s out y = refl

scan_of_pending-append :
    (at_ms : ℕ) (s : State) (out : List SseItem) (x y : Text)
    → scan at_ms (record s { pending_cr = true }) out (x ++ y)
      ≡ resume at_ms y (scan at_ms (record s { pending_cr = true }) out x)
scan_of_pending-append at_ms s out [] y =
    resume-eq at_ms (record s { pending_cr = true }) out y
    ∙ ap (resume at_ms y) (sym (scan-nil at_ms (record s { pending_cr = true }) out))
scan_of_pending-append at_ms s out (d ∷ x) y =
    let w : State × List SseItem = (record s { pending_cr = false }, out) in
    scan_of_pending at_ms s out (d ∷ (x ++ y))
    ∙ after_return-append at_ms d x y w (scan_from-append at_ms y (count_crlf w.0) w.1 [] x refl)
        (scan_from-append at_ms y (count_cr w.0) w.1 [] (d ∷ x) refl)
    ∙ ap (resume at_ms y) (sym (scan_of_pending at_ms s out (d ∷ x)))

-- The same from any state, with a CR that the text before may have left open.
pub scan-append :
    (at_ms : ℕ) (s : State) (out : List SseItem) (x y : Text)
    → scan at_ms s out (x ++ y) ≡ resume at_ms y (scan at_ms s out x)
scan-append at_ms s out x y = elim (Bool-cases s.pending_cr) [
  | inr p ↦
      scan_of_settled at_ms s out (x ++ y) p
      ∙ scan_from-append at_ms y s out [] x p
      ∙ ap (resume at_ms y) (sym (scan_of_settled at_ms s out x p))
  | inl p ↦
      subst
        (λ b.
          scan at_ms (record s { pending_cr = b }) out (x ++ y)
          ≡ resume at_ms y (scan at_ms (record s { pending_cr = b }) out x))
        (sym p) (scan_of_pending-append at_ms s out x y)
]
