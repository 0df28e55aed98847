-- ===== src/Credentials/Redact/Merge.antt =====
-- `mergeSpans` of packages/core/src/credentials/redact.ts: the merged spans stand apart, and cover
-- the same places.
use verif_ai.Common.{
  ℕ, suc, ◌≤◌, ◌≡◌, refl, ap, ◌∙◌, max, Bool, true, false, ◌||◌, List, [], ◌∷◌, leb, All, arith,
  Bool-cases, inl, inr, leb→le,
}
use verif_ai.Credentials.Redact.{Span, insert, sorted, merge_into, merge_sorted, merge_spans}
use verif_ai.Credentials.Redact.Reference.{covered, within, Fits, Apart}

-- In the order of their starts.
abbrev pub Sorted : ℕ → List Span → Type 0
Sorted from [] = Unit
Sorted from (s ∷ spans) = (from ≤ s.start) × Sorted s.start spans

Sorted-le : (a b : ℕ) (spans : List Span) → a ≤ b → Sorted b spans → Sorted a spans
Sorted-le a b [] h s = tt
Sorted-le a b (x ∷ xs) h s = ground arith

insert-Sorted :
    (from : ℕ) (x : Span) (spans : List Span)
    → from ≤ x.start
    → Sorted from spans
    → Sorted from (insert x spans)
unfolding insert
insert-Sorted from x [] h s = (h, tt)
insert-Sorted from x (y ∷ ys) h (lo, s) = elim (Bool-cases (leb x.start y.start)) [
  | inl e ↦ rw e ((h, (ground arith, s)))
  | inr e ↦ rw e ((lo, insert-Sorted y.start x ys (ground arith) s))
]

sorted-Sorted : (spans : List Span) → Sorted 0 (sorted spans)
unfolding sorted
sorted-Sorted [] = tt
sorted-Sorted (x ∷ xs) = insert-Sorted 0 x (sorted xs) (omega arith) (sorted-Sorted xs)

insert-Fits :
    (size : ℕ) (x : Span) (spans : List Span)
    → Fits size x
    → All (Fits size) spans
    → All (Fits size) (insert x spans)
unfolding insert
insert-Fits size x [] h s = (h, tt)
insert-Fits size x (y ∷ ys) h (fits, s) = elim (Bool-cases (leb x.start y.start)) [
  | inl e ↦ rw e ((h, (fits, s)))
  | inr e ↦ rw e ((fits, insert-Fits size x ys h s))
]

sorted-Fits :
    (size : ℕ) (spans : List Span) → All (Fits size) spans → All (Fits size) (sorted spans)
unfolding sorted
sorted-Fits size [] h = tt
sorted-Fits size (x ∷ xs) h = insert-Fits size x (sorted xs) h.0 (sorted-Fits size xs h.1)

or_swap : (a b c : Bool) → (a || (b || c)) ≡ (b || (a || c))
or_swap a b c = ground arith

covered-insert :
    (x : Span) (spans : List Span) (place : ℕ)
    → covered (insert x spans) place ≡ (within x place || covered spans place)
unfolding insert covered
covered-insert x [] place = refl
covered-insert x (y ∷ ys) place = elim (Bool-cases (leb x.start y.start)) [
  | inl e ↦ rw e refl
  | inr e ↦ rw e (
      ap (λ t. within y place || t) (covered-insert x ys place)
      ∙ or_swap (within y place) (within x place) (covered ys place))
]

covered-sorted :
    (spans : List Span) (place : ℕ) → covered (sorted spans) place ≡ covered spans place
unfolding sorted covered
covered-sorted [] place = refl
covered-sorted (x ∷ xs) place =
    covered-insert x (sorted xs) place ∙ ap (λ t. within x place || t) (covered-sorted xs place)

-- Two spans that meet are one, which ends where the later of them does.
within-max :
    (s t : Span) (place : ℕ) (c : Bool)
    → s.start ≤ t.start
    → t.start ≤ s.end
    → (within (record s { end = max s.end t.end }) place || c)
      ≡ (within s place || (within t place || c))
within-max s t place c h k = ground arith

merge_into-nil : (last : Span) → merge_into last [] ≡ last ∷ []
unfolding merge_into
merge_into-nil last = refl

merge_into-near :
    (last x : Span) (xs : List Span)
    → leb x.start last.end ≡ true
    → merge_into last (x ∷ xs) ≡ merge_into (record last { end = max last.end x.end }) xs
unfolding merge_into
merge_into-near last x xs e = rw (e, merge_into) refl

merge_into-far :
    (last x : Span) (xs : List Span)
    → leb x.start last.end ≡ false
    → merge_into last (x ∷ xs) ≡ last ∷ merge_into x xs
unfolding merge_into
merge_into-far last x xs e = rw (e, merge_into) refl

module _ (size : ℕ) where
  merge_into-Apart :
      (from : ℕ) (last : Span) (spans : List Span)
      → from ≤ last.start
      → Fits size last
      → Sorted last.start spans
      → All (Fits size) spans
      → Apart size from (merge_into last spans)
  merge_into-Apart from last [] lo fits s all = rw (merge_into-nil last) ((lo, fits, tt))
  merge_into-Apart from last (x ∷ xs) lo fits (le, s) (fx, all) =
      elim (Bool-cases (leb x.start last.end)) [
        | inl e ↦ rw (merge_into-near last x xs e) (
            merge_into-Apart from (record last { end = max last.end x.end }) xs lo
              (ground arith, ground arith) (Sorted-le last.start x.start xs le s) all)
        | inr e ↦
            rw (merge_into-far last x xs e)
              ((lo, fits, merge_into-Apart (suc last.end) x xs (ground arith) fx s all))
      ]

  covered-merge_into :
      (last : Span) (spans : List Span) (place : ℕ)
      → Sorted last.start spans
      → covered (merge_into last spans) place ≡ (within last place || covered spans place)
  unfolding covered
  covered-merge_into last [] place s = rw (merge_into-nil last) refl
  covered-merge_into last (x ∷ xs) place (le, s) = elim (Bool-cases (leb x.start last.end)) [
    | inl e ↦ rw (merge_into-near last x xs e) (
        covered-merge_into (record last { end = max last.end x.end }) xs place
          (Sorted-le last.start x.start xs le s)
        ∙ within-max last x place (covered xs place) le (leb→le _ _ e))
    | inr e ↦
        rw (merge_into-far last x xs e)
          (ap (λ t. within last place || t) (covered-merge_into x xs place s))
  ]

  Sorted-merge :
      (spans : List Span)
      → Sorted 0 spans
      → All (Fits size) spans
      → Apart size 0 (merge_sorted spans)
        × ((place : ℕ) → covered (merge_sorted spans) place ≡ covered spans place)
  unfolding covered merge_sorted
  Sorted-merge [] s all = (tt, λ place. refl)
  Sorted-merge (x ∷ xs) (lo, s) (fits, all) =
      (merge_into-Apart 0 x xs lo fits s all, λ place. covered-merge_into x xs place s)

  -- The merged spans stand in order with a place between each and the next, and cover what the
  -- spans do.
  pub merge_spans_lem :
      (spans : List Span)
      → All (Fits size) spans
      → Apart size 0 (merge_spans spans)
        × ((place : ℕ) → covered (merge_spans spans) place ≡ covered spans place)
  unfolding merge_spans merge_sorted
  merge_spans_lem spans all =
      let (apart, same) =
        Sorted-merge (sorted spans) (sorted-Sorted spans) (sorted-Fits size spans all) in
      (apart, λ place. same place ∙ covered-sorted spans place)
