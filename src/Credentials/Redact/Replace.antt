-- ===== src/Credentials/Redact/Replace.antt =====
-- `replaceSpans` of packages/core/src/credentials/redact.ts on merged spans is the description
-- place by place.
use verif_ai.Common.{
  drop-drop, ℕ, suc, ◌+◌, ◌-◌, ◌≤◌, ◌<◌, ◌≡◌, refl, sym, ap, ◌∙◌, Bool, true, false, ◌⊎◌, inl, inr,
  List, [], ◌∷◌, ◌++◌, Text, leb, ltb, length, take, drop, arith, Bool-cases, leb→le, ltb→lt,
}
use verif_ai.Credentials.Redact.{Span, redaction_marker, slice, replace_from, replace_spans}
use verif_ai.Credentials.Redact.Reference.{
  covered, masked, masked-nil, masked-true, masked-false, Apart, covered-Apart,
}

Apart-le : (size a b : ℕ) (spans : List Span) → a ≤ b → Apart size b spans → Apart size a spans
Apart-le size a b [] h s = tt
Apart-le size a b (x ∷ xs) h s = ground arith

-- `replace_from`, on what is left of the text at the cursor.
abbrev replace_rest : ℕ → Text → List Span → Text
replace_rest at rest [] = rest
replace_rest at rest (s ∷ spans) =
    take (s.start - at) rest
    ++ (redaction_marker ++ replace_rest s.end (drop (s.end - at) rest) spans)

replace_from-replace_rest :
    (size : ℕ) (text : Text) (at : ℕ) (spans : List Span)
    → Apart size at spans
    → replace_from text at spans ≡ replace_rest at (drop at text) spans
unfolding replace_from
replace_from-replace_rest size text at [] h = refl
replace_from-replace_rest size text at (s ∷ spans) (lo, fits, apart) =
    ap (λ (t : Text). slice text at s.start ++ (redaction_marker ++ t))
      (replace_from-replace_rest size text s.end spans
          (Apart-le size s.end (suc s.end) spans (omega arith) apart)
        ∙ ap (λ (t : Text). replace_rest s.end t spans)
            (sym (drop-drop at (s.end - at) text ∙ ap (λ n. drop n text) (omega arith))))

-- The places from `at` on are covered as the spans say.
abbrev Agrees : (ℕ → Bool) → ℕ → List Span → Type 0
Agrees is_covered at spans = (place : ℕ) → at ≤ place → is_covered place ≡ covered spans place

module _ (size : ℕ) (is_covered : ℕ → Bool) where
  past :
      (at next : ℕ) (s : Span) (spans : List Span)
      → Agrees is_covered at (s ∷ spans)
      → at ≤ next
      → s.end ≤ next
      → Agrees is_covered next spans
  unfolding covered
  past at next s spans h le end place k = h place (omega arith) ∙ ground arith

  later :
      (at : ℕ) (spans : List Span) → Agrees is_covered at spans → Agrees is_covered (suc at) spans
  later at spans h place k = h place (omega arith)

  is_covered-false :
      (at : ℕ) (spans : List Span)
      → Agrees is_covered at spans
      → Apart size (suc at) spans
      → is_covered at ≡ false
  is_covered-false at spans h apart =
      h at (omega arith) ∙ covered-Apart size (suc at) spans at apart (omega arith)

  is_covered-true :
      (at : ℕ) (s : Span) (spans : List Span)
      → Agrees is_covered at (s ∷ spans)
      → s.start ≤ at
      → at < s.end
      → is_covered at ≡ true
  unfolding covered
  is_covered-true at s spans h lo hi = h at (omega arith) ∙ ground arith

  drop-step :
      (at end c : ℕ) (rest : Text)
      → at < end
      → drop (end - at) (c ∷ rest) ≡ drop (end - suc at) rest
  drop-step at end c rest h =
      ap (λ n. drop n (c ∷ rest)) {x = end - at} {y = suc (end - suc at)} (omega arith)

  -- Past a covered unit: inside the span still, or at its end.
  after_unit :
      (at c : ℕ) (rest : Text) (s : Span) (spans : List Span)
      → at < s.end
      → (suc at < s.end
          → masked is_covered (suc at) true rest
            ≡ replace_rest s.end (drop (s.end - suc at) rest) spans)
      → (suc at ≡ s.end → masked is_covered (suc at) true rest ≡ replace_rest (suc at) rest spans)
      → masked is_covered (suc at) true rest
        ≡ replace_rest s.end (drop (s.end - at) (c ∷ rest)) spans
  after_unit at c rest s spans hi inside out =
      let step = drop-step at s.end c rest hi in
      elim (Bool-cases (ltb (suc at) s.end)) [
        | inl e ↦ inside (ltb→lt _ _ e) ∙ ap (λ t. replace_rest s.end t spans) (sym step)
        | inr e ↦
            let d : suc at ≡ s.end = ground arith in
            let none_left : s.end - suc at ≡ 0 = omega arith in
            out d
            ∙ ap (λ a. replace_rest a rest spans) d
            ∙ ap (λ t. replace_rest s.end t spans) (sym (step ∙ ap (λ n. drop n rest) none_left))
      ]

  outside :
      (at : ℕ) (inside : Bool) (s : Span) (spans : List Span)
      → (inside ≡ false) ⊎ Apart size (suc at) (s ∷ spans)
      → s.start ≤ at
      → inside ≡ false
  outside at inside s spans (inl e) le = e
  outside at inside s spans (inr apart) le = absurd (omega arith)

  at_start :
      (at c : ℕ) (rest : Text) (s : Span) (spans : List Span)
      → s.start ≤ at
      → redaction_marker ++ replace_rest s.end (drop (s.end - at) (c ∷ rest)) spans
        ≡ replace_rest at (c ∷ rest) (s ∷ spans)
  at_start at c rest s spans le =
      ap
        (λ (n : ℕ).
          take n (c ∷ rest)
          ++ (redaction_marker ++ replace_rest s.end (drop (s.end - at) (c ∷ rest)) spans))
        {x = 0} {y = s.start - at} (omega arith)

  before_start :
      (at c : ℕ) (rest : Text) (s : Span) (spans : List Span)
      → at < s.start
      → at < s.end
      → c ∷ replace_rest (suc at) rest (s ∷ spans) ≡ replace_rest at (c ∷ rest) (s ∷ spans)
  before_start at c rest s spans lt end =
      ap
        (λ (t : Text).
          take (suc (s.start - suc at)) (c ∷ rest)
          ++ (redaction_marker ++ replace_rest s.end t spans))
        (sym (drop-step at s.end c rest end))
      ∙ ap
          (λ (n : ℕ).
            take n (c ∷ rest)
            ++ (redaction_marker ++ replace_rest s.end (drop (s.end - at) (c ∷ rest)) spans))
          {x = suc (s.start - suc at)} {y = s.start - at} (omega arith)

  -- From a place before the next span, or at its start and not inside one; and from inside a span,
  -- whose marker is written.
  mutual
    masked-before :
        (at : ℕ) (inside : Bool) (rest : Text) (spans : List Span)
        → at + length rest ≡ size
        → Agrees is_covered at spans
        → Apart size at spans
        → (inside ≡ false) ⊎ Apart size (suc at) spans
        → masked is_covered at inside rest ≡ replace_rest at rest spans
    masked-before at inside [] [] n h apart w = masked-nil is_covered at inside
    masked-before at inside [] (s ∷ spans) n h apart w = absurd (omega arith)
    masked-before at inside (c ∷ rest) [] n h apart w =
        rw (masked-false is_covered at inside c rest (is_covered-false at [] h tt)) (
          ap (◌∷◌ c)
            (masked-before (suc at) false rest [] (omega arith) (later at [] h) tt (inl refl)))
    masked-before at inside (c ∷ rest) (s ∷ spans) n h (lo, fits, apart) w =
        elim (Bool-cases (leb s.start at)) [
          | inl e ↦
              rw
                (
                  outside at inside s spans w (leb→le _ _ e),
                  masked-true is_covered at false c rest
                      (is_covered-true at s spans h (leb→le _ _ e) (omega arith)),
                )
                (ap (λ (t : Text). redaction_marker ++ t)
                    (after_unit at c rest s spans (omega arith)
                      (λ more.
                        masked-inside (suc at) rest s spans (omega arith) (later at (s ∷ spans) h)
                          (omega (arith, leb→le s.start at e)) more fits.1 apart)
                      (λ done.
                        masked-before (suc at) true rest spans (omega arith)
                          (past at (suc at) s spans h (omega arith) (omega arith))
                          (Apart-le size (suc at) (suc s.end) spans (omega arith) apart)
                          (inr
                            (Apart-le size (suc (suc at)) (suc s.end) spans (omega arith) apart))))
                  ∙ at_start at c rest s spans (leb→le _ _ e))
          | inr e ↦
              let next : Apart size (suc at) (s ∷ spans) = (ground arith, fits, apart) in
              rw (masked-false is_covered at inside c rest (is_covered-false at (s ∷ spans) h next))
                (ap (◌∷◌ c) (
                    masked-before (suc at) false rest (s ∷ spans) (omega arith)
                      (later at (s ∷ spans) h) next (inl refl))
                  ∙ before_start at c rest s spans next.0 (omega arith))
        ]

    masked-inside :
        (at : ℕ) (rest : Text) (s : Span) (spans : List Span)
        → at + length rest ≡ size
        → Agrees is_covered at (s ∷ spans)
        → s.start ≤ at
        → at < s.end
        → s.end ≤ size
        → Apart size (suc s.end) spans
        → masked is_covered at true rest ≡ replace_rest s.end (drop (s.end - at) rest) spans
    masked-inside at [] s spans n h lo hi fits apart = absurd (omega arith)
    masked-inside at (c ∷ rest) s spans n h lo hi fits apart =
        rw (masked-true is_covered at true c rest (is_covered-true at s spans h lo hi)) (
          after_unit at c rest s spans hi
            (λ more.
              masked-inside (suc at) rest s spans (omega arith) (later at (s ∷ spans) h)
                (omega arith) more fits apart)
            (λ done.
              masked-before (suc at) true rest spans (omega arith)
                (past at (suc at) s spans h (omega arith) (omega arith))
                (Apart-le size (suc at) (suc s.end) spans (omega arith) apart)
                (inr (Apart-le size (suc (suc at)) (suc s.end) spans (omega arith) apart))))

-- Replacing spans that stand apart is what the description makes of the places they cover.
pub replace_spans-masked :
    (text : Text) (spans : List Span) (is_covered : ℕ → Bool)
    → Apart (length text) 0 spans
    → ((place : ℕ) → is_covered place ≡ covered spans place)
    → replace_spans text spans ≡ masked is_covered 0 false text
unfolding replace_spans
replace_spans-masked text spans is_covered apart same =
    replace_from-replace_rest (length text) text 0 spans apart
    ∙ sym (
        masked-before (length text) is_covered 0 false text spans (omega arith)
          (λ place le. same place) apart (inl refl))
