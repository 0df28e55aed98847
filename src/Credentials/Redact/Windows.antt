-- ===== src/Credentials/Redact/Windows.antt =====
-- The occurrences that the redactor of packages/core/src/credentials/redact.ts looks for, each a
-- span of its own, and that `windowSpans` covers the same places.
use mathlib.Core.Path.{subst}
use verif_ai.Common.{
  ℕ, suc, ◌+◌, ◌≤◌, ◌≡◌, refl, sym, ap, ◌∙◌, Bool, true, false, ◌||◌, Option, none, some, inl, inr,
  List, [], ◌∷◌, ◌++◌, Text, ltb, if◌then◌else◌, length, All, All-append, arith, Bool-cases,
}
use verif_ai.Credentials.Redact.{
  Span, is_window, open_run, finished_runs, matched, window_spans_from, partial_match_length,
}
use verif_ai.Credentials.Redact.Reference.{covered, within, covered-append, Fits}

-- A window at a place.
abbrev pub window_at : ℕ → Span
window_at at = record { start = at; end = at + partial_match_length }

-- Each place where a window matches, by itself.
unfoldable pub window_marks : List Text → ℕ → Text → List Span
window_marks windows at [] = []
window_marks windows at (c ∷ rest) =
    let more = window_marks windows (suc at) rest in
    if is_window windows (c ∷ rest) then window_at at ∷ more else more

-- The run that is open at a place.
abbrev Open : ℕ → ℕ → Option Span → Type 0
Open size at none = Unit
Open size at (some s) = (s.start ≤ at) × (s.end ≤ at + 15) × Fits size s

or_assoc : (a b c : Bool) → ((a || b) || c) ≡ (a || (b || c))
or_assoc a b c = ground arith

or_false : (a : Bool) → (a || false) ≡ a
or_false a = ground arith

-- A window that matches is joined to the run it meets, or begins another.
module _ (size at : ℕ) where
  step_covered :
      (run : Option Span) (place : ℕ)
      → Open size at run
      → (covered (finished_runs at run) place || within (matched at run) place)
        ≡ (covered (open_run run) place || within (window_at at) place)
  unfolding covered
  step_covered none place o = refl
  step_covered (some s) place o = ground arith

  step_Open :
      (run : Option Span)
      → Open size at run
      → at + 16 ≤ size
      → Open size (suc at) (some (matched at run)) × All (Fits size) (finished_runs at run)
  step_Open none o h = (ground arith, tt)
  step_Open (some s) o h = elim (Bool-cases (ltb s.end at)) [
    | inl e ↦ rw e ((ground arith, ground arith))
    | inr e ↦ rw e ((ground arith, tt))
  ]

Open-suc : (size at : ℕ) (run : Option Span) → Open size at run → Open size (suc at) run
Open-suc size at none o = tt
Open-suc size at (some s) o = ground arith

is_window-length :
    (windows : List Text) (rest : Text) → is_window windows rest ≡ true → 16 ≤ length rest
is_window-length windows rest e = ground arith

closed-Fits : (size at : ℕ) (run : Option Span) → Open size at run → All (Fits size) (open_run run)
closed-Fits size at none o = tt
closed-Fits size at (some s) o = (o.2, tt)

module _ (windows : List Text) (size : ℕ) where
  spans_true :
      (at c : ℕ) (rest : Text) (run : Option Span)
      → is_window windows (c ∷ rest) ≡ true
      → window_spans_from windows at (c ∷ rest) run
        ≡ finished_runs at run ++ window_spans_from windows (suc at) rest (some (matched at run))
  unfolding window_spans_from
  spans_true at c rest run e = rw (e, window_spans_from) refl

  spans_false :
      (at c : ℕ) (rest : Text) (run : Option Span)
      → is_window windows (c ∷ rest) ≡ false
      → window_spans_from windows at (c ∷ rest) run ≡ window_spans_from windows (suc at) rest run
  unfolding window_spans_from
  spans_false at c rest run e = rw (e, window_spans_from) refl

  pub marks_true :
      (at c : ℕ) (rest : Text)
      → is_window windows (c ∷ rest) ≡ true
      → window_marks windows at (c ∷ rest) ≡ window_at at ∷ window_marks windows (suc at) rest
  unfolding window_marks
  marks_true at c rest e = rw (e, window_marks) refl

  marks_false :
      (at c : ℕ) (rest : Text)
      → is_window windows (c ∷ rest) ≡ false
      → window_marks windows at (c ∷ rest) ≡ window_marks windows (suc at) rest
  unfolding window_marks
  marks_false at c rest e = rw (e, window_marks) refl

  pub window_spans-Fits :
      (at : ℕ) (rest : Text) (run : Option Span)
      → at + length rest ≡ size
      → Open size at run
      → All (Fits size) (window_spans_from windows at rest run)
  unfolding window_spans_from
  window_spans-Fits at [] run n o = closed-Fits size at run o
  window_spans-Fits at (c ∷ rest) run n o = elim (Bool-cases (is_window windows (c ∷ rest))) [
    | inl e ↦
        let (next, done) =
          step_Open size at run o (omega (arith, is_window-length windows (c ∷ rest) e)) in
        subst (All (Fits size)) (sym (spans_true at c rest run e)) (
          All-append (Fits size) (finished_runs at run)
            (window_spans_from windows (suc at) rest (some (matched at run))) done
            (window_spans-Fits (suc at) rest (some (matched at run)) (omega arith) next))
    | inr e ↦
        subst (All (Fits size)) (sym (spans_false at c rest run e))
          (window_spans-Fits (suc at) rest run (omega arith) (Open-suc size at run o))
  ]

  pub covered-window_spans_from :
      (at : ℕ) (rest : Text) (run : Option Span) (place : ℕ)
      → at + length rest ≡ size
      → Open size at run
      → covered (window_spans_from windows at rest run) place
        ≡ (covered (open_run run) place || covered (window_marks windows at rest) place)
  unfolding window_spans_from window_marks covered
  covered-window_spans_from at [] run place n o = sym (or_false (covered (open_run run) place))
  covered-window_spans_from at (c ∷ rest) run place n o =
      elim (Bool-cases (is_window windows (c ∷ rest))) [
        | inl e ↦
            let (next, done) =
              step_Open size at run o (omega (arith, is_window-length windows (c ∷ rest) e)) in
            let more = window_spans_from windows (suc at) rest (some (matched at run)) in
            let marks = window_marks windows (suc at) rest in
            ap (λ l. covered l place) (spans_true at c rest run e)
            ∙ covered-append (finished_runs at run) more place
            ∙ ap (λ b. covered (finished_runs at run) place || b)
                (covered-window_spans_from (suc at) rest (some (matched at run)) place (omega arith)
                  next)
            ∙ ap (λ b. covered (finished_runs at run) place || (b || covered marks place))
                (or_false (within (matched at run) place))
            ∙ sym (
                or_assoc (covered (finished_runs at run) place) (within (matched at run) place)
                  (covered marks place))
            ∙ ap (λ b. b || covered marks place) (step_covered size at run place o)
            ∙ or_assoc (covered (open_run run) place) (within (window_at at) place)
                (covered marks place)
            ∙ ap (λ l. covered (open_run run) place || covered l place)
                (sym (marks_true at c rest e))
        | inr e ↦
            ap (λ l. covered l place) (spans_false at c rest run e)
            ∙ covered-window_spans_from (suc at) rest run place (omega arith)
                (Open-suc size at run o)
            ∙ ap (λ l. covered (open_run run) place || covered l place)
                (sym (marks_false at c rest e))
      ]
