-- ===== src/Credentials/Redact/Reference.antt =====
-- The redactor described place by place: what a text becomes when some of its places are covered.
use verif_ai.Common.{
  ℕ, suc, ◌≤◌, ◌<◌, ◌≡◌, refl, Bool, true, false, ◌&&◌, ◌||◌, List, [], ◌∷◌, ◌++◌, Text, leb, ltb,
  if◌then◌else◌, arith,
}
use verif_ai.Credentials.Redact.{Span, redaction_marker}

abbrev pub within : Span → ℕ → Bool
within span place = leb span.start place && ltb place span.end

-- Whether a place lies in one of the spans.
unfoldable pub covered : List Span → ℕ → Bool
covered [] place = false
covered (s ∷ spans) place = within s place || covered spans place

-- The text from place `at` on: a place that is not covered keeps its unit, and each run of covered
-- places becomes one marker. `inside` says that the place before was covered.
unfoldable pub masked : (ℕ → Bool) → ℕ → Bool → Text → Text
masked is_covered at inside [] = []
masked is_covered at inside (c ∷ rest) = elim (is_covered at) [
  | true ↦ (if inside then [] else redaction_marker) ++ masked is_covered (suc at) true rest
  | false ↦ c ∷ masked is_covered (suc at) false rest
]

-- A span that holds a place of the text at least, and none past its end.
abbrev pub Fits : ℕ → Span → Type 0
Fits size span = (span.start < span.end) × (span.end ≤ size)

-- Spans in order, from a place on, with a place between each and the next.
abbrev pub Apart : ℕ → ℕ → List Span → Type 0
Apart size from [] = Unit
Apart size from (s ∷ spans) = (from ≤ s.start) × Fits size s × Apart size (suc s.end) spans

pub covered-append :
    (xs ys : List Span) (place : ℕ)
    → covered (xs ++ ys) place ≡ (covered xs place || covered ys place)
unfolding covered
covered-append [] ys place = refl
covered-append (x ∷ xs) ys place = ground (arith, covered-append xs ys place)

-- Before the first span nothing is covered.
pub covered-Apart :
    (size from : ℕ) (spans : List Span) (place : ℕ)
    → Apart size from spans
    → place < from
    → covered spans place ≡ false
unfolding covered
covered-Apart size from [] place h lt = refl
covered-Apart size from (s ∷ spans) place (lo, fits, rest) lt =
    ground (arith, covered-Apart size (suc s.end) spans place rest)

module _ (is_covered : ℕ → Bool) where
  pub masked-nil : (at : ℕ) (inside : Bool) → masked is_covered at inside [] ≡ []
  unfolding masked
  masked-nil at inside = refl

  pub masked-true :
      (at : ℕ) (inside : Bool) (c : ℕ) (rest : Text)
      → is_covered at ≡ true
      → masked is_covered at inside (c ∷ rest)
        ≡ (if inside then [] else redaction_marker) ++ masked is_covered (suc at) true rest
  unfolding masked
  masked-true at inside c rest e = rw (e, masked) refl

  pub masked-false :
      (at : ℕ) (inside : Bool) (c : ℕ) (rest : Text)
      → is_covered at ≡ false
      → masked is_covered at inside (c ∷ rest) ≡ c ∷ masked is_covered (suc at) false rest
  unfolding masked
  masked-false at inside c rest e = rw (e, masked) refl
