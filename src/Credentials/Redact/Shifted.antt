-- ===== src/Credentials/Redact/Shifted.antt =====
-- What the redactor of packages/core/src/credentials/redact.ts makes of a text in two parts.
use mathlib.Core.Path.{subst}
use mathlib.Core.List.{append_assoc}
use verif_ai.Common.{
  take-append, ℕ, suc, ◌+◌, ◌≤◌, ◌<◌, ◌≡◌, sym, ap, ◌∙◌, Bool, true, false, inl, inr, List, [], ◌∷◌,
  ◌++◌, Text, leb, ltb, if◌then◌else◌, length, length-append, take, All, arith, Bool-cases,
}
use verif_ai.Credentials.Redact.{has_text, is_window, windows_of, redaction_marker}
use verif_ai.Credentials.Redact.Reference.{covered, masked, masked-nil, masked-true, masked-false}
use verif_ai.Credentials.Redact.Windows.{window_marks, marks_true}

-- `masked` in two parts.
pub ends_inside : (ℕ → Bool) → ℕ → Bool → Text → Bool
ends_inside is_covered at inside [] = inside
ends_inside is_covered at inside (c ∷ rest) = ends_inside is_covered (suc at) (is_covered at) rest

module _ (is_covered : ℕ → Bool) where
  pub shift :
      (at : ℕ) (xs ys : Text) (inside : Bool)
      → masked is_covered (suc at + length xs) inside ys
        ≡ masked is_covered (at + suc (length xs)) inside ys
  shift at xs ys inside =
      ap (λ n. masked is_covered n inside ys) {x = suc at + length xs} {y = at + suc (length xs)}
        (omega arith)

  pub rest_of :
      (at : ℕ) (inside : Bool) (xs ys : Text)
      → masked is_covered (suc at) inside (xs ++ ys)
        ≡ masked is_covered (suc at) inside xs
          ++ masked is_covered (suc at + length xs) (ends_inside is_covered (suc at) inside xs) ys
      → masked is_covered (suc at) inside (xs ++ ys)
        ≡ masked is_covered (suc at) inside xs
          ++ masked is_covered (at + suc (length xs)) (ends_inside is_covered (suc at) inside xs) ys
  rest_of at inside xs ys h =
      h
      ∙ ap (λ t. masked is_covered (suc at) inside xs ++ t)
          (shift at xs ys (ends_inside is_covered (suc at) inside xs))

  pub masked-append :
      (at : ℕ) (inside : Bool) (xs ys : Text)
      → masked is_covered at inside (xs ++ ys)
        ≡ masked is_covered at inside xs
          ++ masked is_covered (at + length xs) (ends_inside is_covered at inside xs) ys
  unfolding ends_inside
  masked-append at inside [] ys =
      rw (masked-nil is_covered at inside)
        (ap (λ n. masked is_covered n inside ys) {x = at} {y = at + 0} (omega arith))
  masked-append at inside (c ∷ xs) ys = elim (Bool-cases (is_covered at)) [
    | inl e ↦
        rw
          (
            masked-true is_covered at inside c (xs ++ ys) e,
            masked-true is_covered at inside c xs e,
            e,
          )
          (ap (λ t. (if inside then [] else redaction_marker) ++ t)
              (rest_of at true xs ys (masked-append (suc at) true xs ys))
            ∙ sym (append_assoc (if inside then [] else redaction_marker) _ _))
    | inr e ↦
        rw
          (
            masked-false is_covered at inside c (xs ++ ys) e,
            masked-false is_covered at inside c xs e,
            e,
          )
          (ap (◌∷◌ c) (rest_of at false xs ys (masked-append (suc at) false xs ys)))
  ]

  pub masked_run :
      (at : ℕ) (inside : Bool) (c : ℕ) (xs ys : Text)
      → ((place : ℕ) → at ≤ place → place < at + length (c ∷ xs) → is_covered place ≡ true)
      → masked is_covered at inside ((c ∷ xs) ++ ys)
        ≡ (if inside then [] else redaction_marker)
          ++ masked is_covered (at + length (c ∷ xs)) true ys
  masked_run at inside c [] ys h =
      masked-true is_covered at inside c ys (h at (omega arith) (omega arith))
      ∙ ap (λ n. (if inside then [] else redaction_marker) ++ masked is_covered n true ys)
          {x = suc at} {y = at + 1} (omega arith)
  masked_run at inside c (d ∷ xs) ys h =
      masked-true is_covered at inside c ((d ∷ xs) ++ ys) (h at (omega arith) (omega arith))
      ∙ ap (λ t. (if inside then [] else redaction_marker) ++ t)
          (masked_run (suc at) true d xs ys (λ place lo hi. h place (omega arith) (omega arith))
            ∙ shift at (d ∷ xs) ys true)

module _ (windows : List Text) (place : ℕ) where
  window_marks-suc :
      (at c : ℕ) (rest : Text)
      → covered (window_marks windows (suc at) rest) place ≡ true
      → covered (window_marks windows at (c ∷ rest)) place ≡ true
  unfolding window_marks covered
  window_marks-suc at c rest h = ground arith

  pub window_marks-append :
      (at : ℕ) (front rest : Text)
      → covered (window_marks windows (at + length front) rest) place ≡ true
      → covered (window_marks windows at (front ++ rest)) place ≡ true
  window_marks-append at [] rest h =
      subst (λ n. covered (window_marks windows n rest) place ≡ true) {x = at + 0} {y = at}
        (omega arith) h
  window_marks-append at (c ∷ front) rest h = window_marks-suc at c (front ++ rest) (
      window_marks-append (suc at) front rest (
        subst (λ n. covered (window_marks windows n rest) place ≡ true)
          {x = at + suc (length front)} {y = suc at + length front} (omega arith) h))

  head_window :
      (c : ℕ) (form : Text)
      → All (λ w. has_text windows w ≡ true) (windows_of (c ∷ form))
      → 16 ≤ length (c ∷ form)
      → (has_text windows (take 16 (c ∷ form)) ≡ true)
        × All (λ w. has_text windows w ≡ true) (windows_of form)
  unfolding windows_of
  head_window c form h long = elim (Bool-cases (leb 16 (length (c ∷ form)))) [
    | inl e ↦ let parts = rw e at h in (parts.0, parts.1)
    | inr e ↦ absurd (ground arith)
  ]

  window_at_head :
      (c : ℕ) (form post : Text)
      → has_text windows (take 16 (c ∷ form)) ≡ true
      → 16 ≤ length (c ∷ form)
      → is_window windows (c ∷ (form ++ post)) ≡ true
  window_at_head c form post h long =
      let same : take 16 (c ∷ (form ++ post)) ≡ take 16 (c ∷ form) =
        take-append 16 (c ∷ form) post long in
      rw same (ground (arith, length-append form post))

  pub form_covered :
      (at : ℕ) (form post : Text)
      → All (λ w. has_text windows w ≡ true) (windows_of form)
      → 16 ≤ length form
      → at ≤ place
      → place < at + length form
      → covered (window_marks windows at (form ++ post)) place ≡ true
  unfolding covered
  form_covered at [] post h long lo hi = absurd (omega arith)
  form_covered at (c ∷ form) post h long lo hi =
      let (here, further) = head_window c form h long in
      elim (Bool-cases (ltb place (at + 16))) [
        | inl e ↦
            rw (marks_true windows 0 at c (form ++ post) (window_at_head c form post here long))
              (ground arith)
        | inr e ↦
            window_marks-suc at c (form ++ post)
              (form_covered (suc at) form post further (ground arith) (ground arith) (omega arith))
      ]
