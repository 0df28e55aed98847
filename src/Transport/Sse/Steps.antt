-- ===== src/Transport/Sse/Steps.antt =====
-- The loop of packages/core/src/transport/sse.ts, one code unit at a time.
use verif_ai.Common.{ℕ, ◌≡◌, refl, sym, ap, true, false, ◌⊎◌, inl, inr, List, [], ◌∷◌, ◌++◌, Text}
use mathlib.Core.List.{append_assoc, append-nil}
use verif_ai.Transport.Sse.Fields.{SseItem, State, process_line}
use verif_ai.Transport.Sse.Scan.{
  count_lf, count_crlf, count_cr, Kind, plain, feed, return, kind, keep, settle_pending_cr,
  scan_from, scan,
}

pub keep-keep : (s : State) (x y : Text) → keep y (keep x s) ≡ keep (x ++ y) s
keep-keep s x y = ap (λ l. record s { line = l }) (append_assoc s.line x y)

pub kind-cases : (c : ℕ) → (kind c ≡ plain) ⊎ (kind c ≡ feed) ⊎ (kind c ≡ return)
kind-cases c = go (kind c)
  where
    go : (k : Kind) → (k ≡ plain) ⊎ (k ≡ feed) ⊎ (k ≡ return)
    go plain = inl refl
    go feed = inr (inl refl)
    go return = inr (inr refl)

pub keep-nil : (s : State) → keep [] s ≡ s
keep-nil s = ap (λ l. record s { line = l }) (append-nil s.line)

-- What a CR does, by what follows it.
unfoldable pub after_return : ℕ → Text → State × List SseItem → State × List SseItem
after_return at_ms [] (s, out) = (record s { pending_cr = true }, out)
after_return at_ms (d ∷ rest) (s, out) = elim (kind d) [
  | feed ↦ scan_from at_ms (count_crlf s) out [] rest
  | _ ↦ scan_from at_ms (count_cr s) out [] (d ∷ rest)
]

unfoldable pub after_feed : ℕ → Text → State × List SseItem → State × List SseItem
after_feed at_ms rest (s, out) = scan_from at_ms (count_lf s) out [] rest

-- The three ways to step over a code unit, whatever follows it.
module _ (at_ms : ℕ) (s : State) (out : List SseItem) (slice : Text) (c : ℕ) where
  pub step_plain :
      (rest : Text)
      → kind c ≡ plain
      → scan_from at_ms s out slice (c ∷ rest) ≡ scan_from at_ms s out (slice ++ c ∷ []) rest
  unfolding scan_from
  step_plain [] k = rw (k, scan_from)
  step_plain (d ∷ rest) k = rw (k, scan_from)

  pub step_feed :
      (rest : Text)
      → kind c ≡ feed
      → scan_from at_ms s out slice (c ∷ rest)
        ≡ after_feed at_ms rest (process_line (keep slice s) at_ms out)
  unfolding scan_from after_feed
  step_feed [] k =
      rw (k, scan_from)
        (ap (λ s'. (s', (process_line (keep slice s) at_ms out).1))
          (sym (keep-nil (count_lf (process_line (keep slice s) at_ms out).0))))
  step_feed (d ∷ rest) k = rw (k, scan_from)

  pub step_return :
      (rest : Text)
      → kind c ≡ return
      → scan_from at_ms s out slice (c ∷ rest)
        ≡ after_return at_ms rest (process_line (keep slice s) at_ms out)
  unfolding scan_from after_return
  step_return [] k = rw (k, scan_from)
  step_return (d ∷ rest) k = rw (k, scan_from)

pub scan-nil : (at_ms : ℕ) (s : State) (out : List SseItem) → scan at_ms s out [] ≡ (s, out)
unfolding scan
scan-nil at_ms s out = ap (λ s'. (s', out)) (keep-nil s)

pub not_pending : (s : State) → s.pending_cr ≡ false → record s { pending_cr = false } ≡ s
not_pending s p = ap (λ b. record s { pending_cr = b }) (sym p)

pub scan_of_pending :
    (at_ms : ℕ) (s : State) (out : List SseItem) (rest : Text)
    → scan at_ms (record s { pending_cr = true }) out rest
      ≡ after_return at_ms rest (record s { pending_cr = false }, out)
unfolding scan after_return
scan_of_pending at_ms s out [] = scan-nil at_ms (record s { pending_cr = true }) out
scan_of_pending at_ms s out (d ∷ rest) = elim (kind-cases d) [
  | inl k ↦ rw (k, settle_pending_cr) (rw (k, after_return))
  | inr (inl k) ↦ rw (k, settle_pending_cr) (rw (k, after_return))
  | inr (inr k) ↦ rw (k, settle_pending_cr) (rw (k, after_return))
]
