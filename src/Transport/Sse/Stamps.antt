-- ===== src/Transport/Sse/Stamps.antt =====
-- What the arrival time of a chunk, and the items read before it, have to do with what the scan of
-- packages/core/src/transport/sse.ts reads from it.
use verif_ai.Common.{
  ℕ, ◌≡◌, refl, sym, ap, ◌∙◌, inl, inr, List, [], ◌∷◌, ◌++◌, map, Text, true, arith,
}
use mathlib.Core.List.{append_assoc, append-nil, map-append}
use verif_ai.Transport.Sse.Fields.{SseItem, event, comment, State, dispatch, process_line}
use verif_ai.Transport.Sse.Steps.{
  kind-cases, after_return, after_feed, step_plain, step_feed, step_return,
}
use verif_ai.Transport.Sse.Scan.{
  plain, feed, return, kind, count_lf, count_crlf, count_cr, keep, settle_pending_cr, scan_from,
  scan,
}

-- An item with another arrival time.
abbrev pub stamp : ℕ → SseItem → SseItem
stamp t (event type payload id retry fields at_ms) = event type payload id retry fields t
stamp t (comment text at_ms) = comment text t

abbrev Read : Type 0
Read = State × List SseItem

-- `w`, read at time t after the items `out`.
abbrev pub later : ℕ → List SseItem → Read → Read
later t out w = (w.0, out ++ map (stamp t) w.1)

pub map-stamp-stamp :
    (t u : ℕ) (items : List SseItem) → map (stamp t) (map (stamp u) items) ≡ map (stamp t) items
map-stamp-stamp t u [] = refl
map-stamp-stamp t u (event type payload id retry fields at_ms ∷ items) =
    ap (λ l. event type payload id retry fields t ∷ l) (map-stamp-stamp t u items)
map-stamp-stamp t u (comment text at_ms ∷ items) =
    ap (λ l. comment text t ∷ l) (map-stamp-stamp t u items)

later-later :
    (t : ℕ) (out more : List SseItem) (w : Read)
    → later t out (later 0 more w) ≡ later t (out ++ map (stamp t) more) w
later-later t out more w =
    ap (λ l. (w.0, l))
      (ap (λ l. out ++ l)
          (map-append (stamp t) more (map (stamp 0) w.1)
            ∙ ap (λ l. map (stamp t) more ++ l) (map-stamp-stamp t 0 w.1))
        ∙ sym (append_assoc out (map (stamp t) more) (map (stamp t) w.1)))

process_line-later :
    (s : State) (t : ℕ) (out : List SseItem)
    → process_line s t out ≡ later t out (process_line s 0 [])
unfolding process_line dispatch
process_line-later s t out = ground (arith, append-nil out)

-- A continuation that is read later after `out` is so after more items too.
continue-later :
    (f : ℕ → List SseItem → Read)
    → ((t : ℕ) (out : List SseItem) → f t out ≡ later t out (f 0 []))
    → (t : ℕ) (out more : List SseItem) → f t (out ++ map (stamp t) more) ≡ later t out (f 0 more)
continue-later f h t out more =
    h t (out ++ map (stamp t) more)
    ∙ sym (later-later t out more (f 0 []))
    ∙ ap (later t out) (sym (h 0 more))

after_return-later :
    (d : ℕ) (x : Text) (s : State)
    → ((s' : State) (t : ℕ) (out : List SseItem)
        → scan_from t s' out [] x ≡ later t out (scan_from 0 s' [] [] x))
    → ((s' : State) (t : ℕ) (out : List SseItem)
        → scan_from t s' out [] (d ∷ x) ≡ later t out (scan_from 0 s' [] [] (d ∷ x)))
    → (t : ℕ) (out : List SseItem)
    → after_return t (d ∷ x) (s, out) ≡ later t out (after_return 0 (d ∷ x) (s, []))
unfolding after_return
after_return-later d x s feeds others t out = elim (kind-cases d) [
  | inl k ↦ rw (k, after_return) (others (count_cr s) t out)
  | inr (inl k) ↦ rw (k, after_return) (feeds (count_crlf s) t out)
  | inr (inr k) ↦ rw (k, after_return) (others (count_cr s) t out)
]

after_return_nil-later :
    (s : State) (t : ℕ) (out : List SseItem)
    → after_return t [] (s, out) ≡ later t out (after_return 0 [] (s, []))
unfolding after_return
after_return_nil-later s t out =
    ap (λ l. (record s { pending_cr = true }, l)) (sym (append-nil out))

-- One step of the scan, given the same of the scan after it.
module _ (t : ℕ) (s : State) (out : List SseItem) (slice : Text) (c : ℕ) (x : Text) where
  abbrev Goal : Type 0
  Goal = scan_from t s out slice (c ∷ x) ≡ later t out (scan_from 0 s [] slice (c ∷ x))

  abbrev complete : Read
  complete = process_line (keep slice s) 0 []

  plain-later :
      kind c ≡ plain
      → scan_from t s out (slice ++ c ∷ []) x ≡ later t out (scan_from 0 s [] (slice ++ c ∷ []) x)
      → Goal
  plain-later k ih =
      step_plain t s out slice c x k ∙ ih ∙ ap (later t out) (sym (step_plain 0 s [] slice c x k))

  feed-later :
      kind c ≡ feed
      → ((u : ℕ) (o : List SseItem)
          → scan_from u (count_lf complete.0) o [] x
            ≡ later u o (scan_from 0 (count_lf complete.0) [] [] x))
      → Goal
  unfolding after_feed
  feed-later k ih =
      step_feed t s out slice c x k
      ∙ ap (after_feed t x) (process_line-later (keep slice s) t out)
      ∙ continue-later (λ u o. after_feed u x (complete.0, o)) ih t out complete.1
      ∙ ap (later t out) (sym (step_feed 0 s [] slice c x k))

  return-later :
      kind c ≡ return
      → ((u : ℕ) (o : List SseItem)
          → after_return u x (complete.0, o) ≡ later u o (after_return 0 x (complete.0, [])))
      → Goal
  return-later k ih =
      step_return t s out slice c x k
      ∙ ap (after_return t x) (process_line-later (keep slice s) t out)
      ∙ continue-later (λ u o. after_return u x (complete.0, o)) ih t out complete.1
      ∙ ap (later t out) (sym (step_return 0 s [] slice c x k))

-- What the scan reads depends on the time and on the items before only so far.
scan_from-later :
    (t : ℕ) (s : State) (out : List SseItem) (slice x : Text)
    → scan_from t s out slice x ≡ later t out (scan_from 0 s [] slice x)
unfolding scan_from
scan_from-later t s out slice [] = ap (λ l. (keep slice s, l)) (sym (append-nil out))
scan_from-later t s out slice (c ∷ []) =
    let r = process_line (keep slice s) 0 [] in
    elim (kind-cases c) [
      | inl k ↦ plain-later t s out slice c [] k (scan_from-later t s out (slice ++ c ∷ []) [])
      | inr (inl k) ↦
          feed-later t s out slice c [] k (λ u o. scan_from-later u (count_lf r.0) o [] [])
      | inr (inr k) ↦ return-later t s out slice c [] k (after_return_nil-later r.0)
    ]
scan_from-later t s out slice (c ∷ d ∷ x) =
    let r = process_line (keep slice s) 0 [] in
    elim (kind-cases c) [
      | inl k ↦
          plain-later t s out slice c (d ∷ x) k (scan_from-later t s out (slice ++ c ∷ []) (d ∷ x))
      | inr (inl k) ↦
          feed-later t s out slice c (d ∷ x) k
            (λ u o. scan_from-later u (count_lf r.0) o [] (d ∷ x))
      | inr (inr k) ↦ return-later t s out slice c (d ∷ x) k (
          after_return-later d x r.0 (λ s' u o. scan_from-later u s' o [] x)
            (λ s' u o. scan_from-later u s' o [] (d ∷ x)))
    ]

pub scan-later :
    (t : ℕ) (s : State) (out : List SseItem) (x : Text)
    → scan t s out x ≡ later t out (scan 0 s [] x)
unfolding scan
scan-later t s out x = let (s', rest) = settle_pending_cr s x in scan_from-later t s' out [] rest
