-- ===== src/Credentials/Redact/Covers.antt =====
-- The redactor of packages/core/src/credentials/redact.ts, whole: it is the description place by
-- place of what its patterns occur at, and no form of a secret is left where it occurs.
use verif_ai.Common.{
  ℕ, suc, ◌+◌, ◌≤◌, ◌≡◌, refl, sym, ap, ◌∙◌, Bool, true, false, ◌&&◌, ◌||◌, inl, inr, none, List,
  [], ◌∷◌, ◌++◌, Text, if◌then◌else◌, length, All, All-append, arith, Bool-cases,
}
use verif_ai.Credentials.Redact.{
  Span, Needle, Patterns, has_text, is_window, compile, starts_with, occurrences_from, needle_spans,
  window_spans_from, merge_spans, replace_spans, spans_in, unless_none, with_patterns, is_empty,
  redact,
}
use verif_ai.Credentials.Redact.Reference.{covered, masked, Fits, covered-append}
use verif_ai.Credentials.Redact.Merge.{merge_spans_lem}
use verif_ai.Credentials.Redact.Replace.{replace_spans-masked}
use verif_ai.Credentials.Redact.Windows.{window_marks, window_spans-Fits, covered-window_spans_from}
use verif_ai.Credentials.Redact.Compile.{IsSound, compile-HasSound}

starts_with-length : (find rest : Text) → starts_with find rest ≡ true → length find ≤ length rest
starts_with-length [] rest h = omega arith
starts_with-length (c ∷ find) [] h = cc
starts_with-length (c ∷ find) (d ∷ rest) h = ground (arith, starts_with-length find rest)

module _ (size : ℕ) where
  occurrences_from-Fits :
      (n : Needle) (at : ℕ) (rest : Text)
      → IsSound n
      → at + length rest ≡ size
      → All (Fits size) (occurrences_from n at rest)
  unfolding occurrences_from
  occurrences_from-Fits n at [] s e = tt
  occurrences_from-Fits n at (c ∷ rest) s e = elim (Bool-cases (starts_with n.find (c ∷ rest))) [
    | inl found ↦
        rw (found, occurrences_from)
          ((
            (omega arith, omega (arith, starts_with-length n.find (c ∷ rest) found)),
            occurrences_from-Fits n (suc at) rest s (omega arith),
          ))
    | inr not_here ↦
        rw (not_here, occurrences_from) (occurrences_from-Fits n (suc at) rest s (omega arith))
  ]

needle_spans-Fits :
    (text : Text) (needles : List Needle)
    → All IsSound needles
    → All (Fits (length text)) (needle_spans text needles)
unfolding needle_spans
needle_spans-Fits text [] h = tt
needle_spans-Fits text (n ∷ needles) h =
    All-append (Fits (length text)) (occurrences_from n 0 text) (needle_spans text needles)
      (occurrences_from-Fits (length text) n 0 text h.0 (omega arith))
      (needle_spans-Fits text needles h.1)

-- Each occurrence of a pattern in a text, as a span of its own.
unfoldable pub marks : Patterns → Text → List Span
marks patterns text = window_marks patterns.windows 0 text ++ needle_spans text patterns.needles

module _ (patterns : Patterns) (text : Text) where
  spans_in-Fits : All IsSound patterns.needles → All (Fits (length text)) (spans_in patterns text)
  spans_in-Fits h =
      All-append (Fits (length text)) (window_spans_from patterns.windows 0 text none)
        (needle_spans text patterns.needles)
        (window_spans-Fits patterns.windows (length text) 0 text none (omega arith) tt)
        (needle_spans-Fits text patterns.needles h)

  covered-spans_in :
      (place : ℕ) → covered (spans_in patterns text) place ≡ covered (marks patterns text) place
  unfolding marks covered
  covered-spans_in place =
      covered-append (window_spans_from patterns.windows 0 text none)
        (needle_spans text patterns.needles) place
      ∙ ap (λ b. b || covered (needle_spans text patterns.needles) place)
          (covered-window_spans_from patterns.windows (length text) 0 text none place (omega arith)
            tt)
      ∙ sym (
          covered-append (window_marks patterns.windows 0 text) (needle_spans text patterns.needles)
            place)

unless_none-masked :
    (text : Text) (spans : List Span) (is_covered : ℕ → Bool)
    → All (Fits (length text)) spans
    → ((place : ℕ) → is_covered place ≡ covered spans place)
    → unless_none spans text ≡ masked is_covered 0 false text
unfolding replace_spans
unless_none-masked text [] is_covered h same = replace_spans-masked text [] is_covered tt same
unless_none-masked text (s ∷ spans) is_covered h same =
    let (apart, merged) = merge_spans_lem (length text) (s ∷ spans) h in
    replace_spans-masked text (merge_spans (s ∷ spans)) is_covered apart
      (λ place. same place ∙ sym (merged place))

with_patterns-masked :
    (patterns : Patterns) (text : Text)
    → All IsSound patterns.needles
    → with_patterns patterns text ≡ masked (covered (marks patterns text)) 0 false text
with_patterns-masked patterns text h =
    unless_none-masked text (spans_in patterns text) (covered (marks patterns text))
      (spans_in-Fits patterns text h) (λ place. sym (covered-spans_in patterns text place))

-- Without patterns nothing is found.
no_window : (rest : Text) → is_window [] rest ≡ false
unfolding has_text
no_window rest = ground arith

no_window_spans : (at : ℕ) (text : Text) → window_spans_from [] at text none ≡ []
unfolding window_spans_from
no_window_spans at [] = refl
no_window_spans at (c ∷ rest) =
    rw (no_window (c ∷ rest), window_spans_from) (no_window_spans (suc at) rest)

no_patterns_in :
    (windows : List Text) (needles : List Needle) (text : Text)
    → (is_empty windows && is_empty needles) ≡ true
    → with_patterns (record { windows = windows; needles = needles }) text ≡ text
unfolding needle_spans
no_patterns_in [] [] text e = rw (no_window_spans 0 text) refl
no_patterns_in [] (n ∷ ns) text e = cc
no_patterns_in (w ∷ ws) ns text e = cc

no_patterns :
    (patterns : Patterns) (text : Text)
    → (is_empty patterns.windows && is_empty patterns.needles) ≡ true
    → with_patterns patterns text ≡ text
no_patterns patterns text e = no_patterns_in patterns.windows patterns.needles text e

unfolds_redact :
    (patterns : Patterns) (text : Text)
    → (if is_empty patterns.windows && is_empty patterns.needles
        then text
        else with_patterns patterns text)
      ≡ with_patterns patterns text
unfolds_redact patterns text =
    elim (Bool-cases (is_empty patterns.windows && is_empty patterns.needles)) [
      | inl e ↦ rw e (sym (no_patterns patterns text e))
      | inr e ↦ rw e refl
    ]

-- Redacting a text is what the description makes of the places at which a pattern of the secrets
-- occurs: every other unit is kept in its order, and each longest run of such places becomes one
-- marker.
pub redact-masked :
    (secrets : List Text) (text : Text)
    → redact secrets text ≡ masked (covered (marks (compile secrets) text)) 0 false text
unfolding redact
redact-masked secrets text =
    unfolds_redact (compile secrets) text
    ∙ with_patterns-masked (compile secrets) text (compile-HasSound secrets)
