-- ===== src/Credentials/Redact/Hides.antt =====
-- Where a form of a secret stands in a text, the redactor of
-- packages/core/src/credentials/redact.ts leaves nothing of it.
use mathlib.Core.Path.{subst}
use verif_ai.Common.{
  ℕ, suc, ◌+◌, ◌≤◌, ◌<◌, ◌≡◌, refl, sym, ap, ◌∙◌, Bool, true, false, ◌||◌, inl, inr, List, [], ◌∷◌,
  ◌++◌, Text, leb, if◌then◌else◌, length, All, Elem, arith, leb→le,
}
use verif_ai.Credentials.Redact.{
  Needle, Patterns, forms_of, compile, starts_with, occurrences_from, needle_spans,
  redaction_marker, redact,
}
use verif_ai.Credentials.Redact.Reference.{covered, masked, covered-append}
use verif_ai.Credentials.Redact.Windows.{window_marks}
use verif_ai.Credentials.Redact.Lengths.{forms_of-Grows}
use verif_ai.Credentials.Redact.Knows.{whole, Knows, compile-Knows}
use verif_ai.Credentials.Redact.Covers.{marks, redact-masked}
use verif_ai.Credentials.Redact.Shifted.{
  ends_inside, masked-append, masked_run, window_marks-append, form_covered,
}

starts_with_self : (form post : Text) → starts_with form (form ++ post) ≡ true
starts_with_self [] post = refl
starts_with_self (c ∷ form) post = ground (arith, starts_with_self form post)

or_true : (a b : Bool) → b ≡ true → (a || b) ≡ true
or_true a b h = ground arith

covered_head :
    (n : Needle) (at c : ℕ) (rest : Text) (place : ℕ)
    → starts_with n.find (c ∷ rest) ≡ true
    → at + n.start ≤ place
    → place < at + n.end
    → covered (occurrences_from n at (c ∷ rest)) place ≡ true
unfolding occurrences_from covered
covered_head n at c rest place found lo hi = rw (found, occurrences_from) (ground arith)

at_form :
    (form : Text) (at : ℕ) (post : Text) (place : ℕ)
    → at ≤ place
    → place < at + length form
    → covered (occurrences_from (whole form) at (form ++ post)) place ≡ true
at_form [] at post place lo hi = absurd (omega arith)
at_form (c ∷ form) at post place lo hi =
    covered_head (whole (c ∷ form)) at c (form ++ post) place (starts_with_self (c ∷ form) post)
      (omega arith) hi

occurrences_from-suc :
    (n : Needle) (at c : ℕ) (rest : Text) (place : ℕ)
    → covered (occurrences_from n (suc at) rest) place ≡ true
    → covered (occurrences_from n at (c ∷ rest)) place ≡ true
unfolding occurrences_from covered
occurrences_from-suc n at c rest place h = ground arith

module _ (form : Text) (place : ℕ) where
  occurrences_from-append :
      (at : ℕ) (front post : Text)
      → at + length front ≤ place
      → place < at + length front + length form
      → covered (occurrences_from (whole form) at (front ++ (form ++ post))) place ≡ true
  occurrences_from-append at [] post lo hi = at_form form at post place (omega arith) (omega arith)
  occurrences_from-append at (c ∷ front) post lo hi =
      occurrences_from-suc (whole form) at c (front ++ (form ++ post)) place
        (occurrences_from-append (suc at) front post (omega arith) (omega arith))

  needle_spans-Elem :
      (text : Text) (n : Needle) (needles : List Needle)
      → Elem n needles
      → covered (occurrences_from n 0 text) place ≡ true
      → covered (needle_spans text needles) place ≡ true
  unfolding needle_spans
  needle_spans-Elem text n [] m h = absurd m.1
  needle_spans-Elem text n (x ∷ needles) (inl e) h =
      covered-append (occurrences_from x 0 text) (needle_spans text needles) place
      ∙ ap (λ b. b || covered (needle_spans text needles) place)
          (subst (λ y. covered (occurrences_from y 0 text) place ≡ true) e h)
  needle_spans-Elem text n (x ∷ needles) (inr m) h =
      covered-append (occurrences_from x 0 text) (needle_spans text needles) place
      ∙ or_true (covered (occurrences_from x 0 text) place)
          (covered (needle_spans text needles) place) (needle_spans-Elem text n needles m h)

All-Elem : (P : Text → Type 0) (x : Text) (xs : List Text) → All P xs → Elem x xs → P x
All-Elem P x [] h m = absurd m.1
All-Elem P x (y ∷ ys) h (inl e) = subst P (sym e) h.0
All-Elem P x (y ∷ ys) h (inr m) = All-Elem P x ys h.1 m

module _ (patterns : Patterns) (form front post : Text) (place : ℕ) where
  -- What the patterns know of a form covers it wherever it stands.
  Knows-covered :
      (is_long : Bool)
      → Knows patterns is_long form
      → (is_long ≡ true → 16 ≤ length form)
      → length front ≤ place
      → place < length front + length form
      → covered (marks patterns (front ++ (form ++ post))) place ≡ true
  unfolding marks
  Knows-covered true k long lo hi =
      let text = front ++ (form ++ post) in
      covered-append (window_marks patterns.windows 0 text) (needle_spans text patterns.needles)
        place
      ∙ ap (λ b. b || covered (needle_spans text patterns.needles) place)
          (window_marks-append patterns.windows place 0 front (form ++ post) (
            subst (λ n. covered (window_marks patterns.windows n (form ++ post)) place ≡ true)
              {x = length front} {y = 0 + length front} (omega arith)
              (form_covered patterns.windows place (length front) form post k (long refl) lo hi)))
  Knows-covered false k long lo hi =
      let text = front ++ (form ++ post) in
      covered-append (window_marks patterns.windows 0 text) (needle_spans text patterns.needles)
        place
      ∙ or_true (covered (window_marks patterns.windows 0 text) place)
          (covered (needle_spans text patterns.needles) place)
          (needle_spans-Elem form place text (whole form) patterns.needles k
            (occurrences_from-append form place 0 front post (omega arith) (omega arith)))

-- Which places of a text a pattern of the secrets occurs at.
abbrev pub hidden : List Text → Text → ℕ → Bool
hidden secrets text = covered (marks (compile secrets) text)

module _ (secrets : List Text) (c : ℕ) (s form front post : Text) (is_secret : Elem (c ∷ s) secrets)
    (is_form : Elem form (forms_of (c ∷ s))) where
  form-hidden :
      (place : ℕ)
      → length front ≤ place
      → place < length front + length form
      → hidden secrets (front ++ (form ++ post)) place ≡ true
  form-hidden place lo hi =
      Knows-covered (compile secrets) form front post place (leb 16 (length (c ∷ s)))
        (compile-Knows c s form secrets is_secret is_form)
        (λ long. omega (
          arith,
          leb→le 16 (length (c ∷ s)) long,
          All-Elem (λ f. length (c ∷ s) ≤ length f) form (forms_of (c ∷ s)) (forms_of-Grows (c ∷ s))
              is_form,
        ))
        lo hi

-- Of a form of a secret, raw or as JSON or a URL escapes it, redacting a text that holds it leaves
-- nothing: what is left is of the text before the form, then at most one marker, then of the text
-- after it.
pub redact-hides :
    (secrets : List Text) (c : ℕ) (s form front post : Text)
    → Elem (c ∷ s) secrets
    → Elem form (forms_of (c ∷ s))
    → (inside : Bool) × (redact secrets (front ++ (form ++ post))
        ≡ masked (hidden secrets (front ++ (form ++ post))) 0 false front
          ++ ((if inside then [] else redaction_marker)
              ++ masked
                  (hidden secrets (front ++ (form ++ post)))
                  (length front + length form)
                  true
                  post))
redact-hides secrets c s [] front post m f = absurd (
    omega (
      arith,
      All-Elem (λ x. length (c ∷ s) ≤ length x) [] (forms_of (c ∷ s)) (forms_of-Grows (c ∷ s)) f,
    ))
redact-hides secrets c s (d ∷ form) front post m f =
    let text = front ++ ((d ∷ form) ++ post) in
    let shown = hidden secrets text in
    let inside = ends_inside shown 0 false front in
    (
      inside,
      redact-masked secrets text
          ∙ masked-append shown 0 false front ((d ∷ form) ++ post)
          ∙ ap (λ t. masked shown 0 false front ++ t)
              (masked_run shown (0 + length front) inside d form post (λ place lo hi.
                  form-hidden secrets c s (d ∷ form) front post m f place (omega arith)
                    (omega arith))
                ∙ ap (λ n. (if inside then [] else redaction_marker) ++ masked shown n true post)
                    {x = 0 + length front + length (d ∷ form)}
                    {y = length front + length (d ∷ form)} (omega arith)),
    )
