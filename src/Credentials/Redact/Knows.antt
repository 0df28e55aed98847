-- ===== src/Credentials/Redact/Knows.antt =====
-- What the patterns of packages/core/src/credentials/redact.ts hold for each form of each secret.
use mathlib.Core.Path.{subst}
use verif_ai.Common.{
  text_eq_refl, text_eq_sound, ℕ, ◌-◌, ◌≡◌, refl, sym, Bool, true, false, ◌||◌, ◌⊎◌, inl, inr, List,
  [], ◌∷◌, ◌++◌, Text, text_eq, leb, length, All, Elem, any, arith, Bool-cases,
}
use verif_ai.Credentials.Redact.{
  Needle, Patterns, has_text, distinct_from, forms_of, pieces_from, short_needles, windows_of,
  same_needle, set_needle, set_needles, add_form, add_forms, add_secret, add_secrets, compile,
}

abbrev pub whole : Text → Needle
whole form = record { find = form; start = 0; end = length form }

-- The patterns hold every window of a form, or the form whole.
abbrev pub Knows : Patterns → Bool → Text → Type 0
Knows patterns true form = All (λ w. has_text patterns.windows w ≡ true) (windows_of form)
Knows patterns false form = Elem (whole form) patterns.needles

any-append : (p : Text → Bool) (xs ys : List Text) → any p (xs ++ ys) ≡ (any p xs || any p ys)
any-append p [] ys = refl
any-append p (x ∷ xs) ys = ground (arith, any-append p xs ys)

Elem-append_left : (n : Needle) (xs ys : List Needle) → Elem n xs → Elem n (xs ++ ys)
Elem-append_left n [] ys h = absurd h.1
Elem-append_left n (x ∷ xs) ys (inl e) = inl e
Elem-append_left n (x ∷ xs) ys (inr h) = inr (Elem-append_left n xs ys h)

Elem-append_last : (n : Needle) (xs : List Needle) → Elem n (xs ++ n ∷ [])
Elem-append_last n [] = inl refl
Elem-append_last n (x ∷ xs) = inr (Elem-append_last n xs)

same_needle_sound : (a b : Needle) → same_needle a b ≡ true → a ≡ b
same_needle_sound a b h = ground (arith, text_eq_sound a.find b.find)

any_same-Elem :
    (n : Needle) (needles : List Needle) → any (same_needle n) needles ≡ true → Elem n needles
any_same-Elem n [] h = cc
any_same-Elem n (m ∷ needles) h = elim (Bool-cases (same_needle n m)) [
  | inl e ↦ inl (same_needle_sound n m e)
  | inr e ↦ inr (any_same-Elem n needles (ground arith))
]

module _ (form : Text) where
  set_needle-keeps :
      (n : Needle) (needles : List Needle)
      → Elem (whole form) needles
      → Elem (whole form) (set_needle n needles)
  set_needle-keeps n needles h = elim (Bool-cases (any (same_needle n) needles)) [
    | inl e ↦ rw e h
    | inr e ↦ rw e (Elem-append_left (whole form) needles (n ∷ []) h)
  ]

  set_needle-adds : (needles : List Needle) → Elem (whole form) (set_needle (whole form) needles)
  set_needle-adds needles = elim (Bool-cases (any (same_needle (whole form)) needles)) [
    | inl e ↦ rw e (any_same-Elem (whole form) needles e)
    | inr e ↦ rw e (Elem-append_last (whole form) needles)
  ]

  set_needles-keeps :
      (more needles : List Needle)
      → Elem (whole form) needles
      → Elem (whole form) (set_needles more needles)
  unfolding set_needles
  set_needles-keeps [] needles h = h
  set_needles-keeps (n ∷ more) needles h =
      set_needles-keeps more (set_needle n needles) (set_needle-keeps n needles h)

  has-append_left :
      (xs ys ws : List Text)
      → All (λ w. has_text xs w ≡ true) ws
      → All (λ w. has_text (xs ++ ys) w ≡ true) ws
  unfolding has_text
  has-append_left xs ys [] h = tt
  has-append_left xs ys (w ∷ ws) h =
      (ground (arith, any-append (text_eq w) xs ys), has-append_left xs ys ws h.1)

  add_form-keeps :
      (kind is_long : Bool) (f : Text) (p : Patterns)
      → Knows p kind form
      → Knows (add_form is_long f p) kind form
  add_form-keeps true true f p h = has-append_left p.windows (windows_of f) (windows_of form) h
  add_form-keeps true false f p h = h
  add_form-keeps false true f p h = h
  add_form-keeps false false f p h = set_needles-keeps (short_needles f) p.needles h

  add_forms-keeps :
      (kind is_long : Bool) (forms : List Text) (p : Patterns)
      → Knows p kind form
      → Knows (add_forms is_long forms p) kind form
  unfolding add_forms
  add_forms-keeps kind is_long [] p h = h
  add_forms-keeps kind is_long (f ∷ forms) p h =
      add_forms-keeps kind is_long forms (add_form is_long f p) (add_form-keeps kind is_long f p h)

  add_secrets-keeps :
      (kind : Bool) (secrets : List Text) (p : Patterns)
      → Knows p kind form
      → Knows (add_secrets secrets p) kind form
  unfolding add_secrets add_secret
  add_secrets-keeps kind [] p h = h
  add_secrets-keeps kind ([] ∷ secrets) p h = add_secrets-keeps kind secrets p h
  add_secrets-keeps kind ((c ∷ s) ∷ secrets) p h =
      add_secrets-keeps kind secrets (add_secret (c ∷ s) p)
        (add_forms-keeps kind (leb 16 (length (c ∷ s))) (forms_of (c ∷ s)) p h)

  has-append_right :
      (xs ys ws : List Text)
      → All (λ w. has_text ys w ≡ true) ws
      → All (λ w. has_text (xs ++ ys) w ≡ true) ws
  unfolding has_text
  has-append_right xs ys [] h = tt
  has-append_right xs ys (w ∷ ws) h =
      (ground (arith, any-append (text_eq w) xs ys), has-append_right xs ys ws h.1)

  has_self : (ws : List Text) → All (λ w. has_text ws w ≡ true) ws
  unfolding has_text
  has_self [] = tt
  has_self (w ∷ ws) =
      (ground (arith, text_eq_refl w), has-append_right (w ∷ []) ws ws (has_self ws))

  add_form-Knows : (is_long : Bool) (p : Patterns) → Knows (add_form is_long form p) is_long form
  unfolding set_needles short_needles
  add_form-Knows true p =
      has-append_right p.windows (windows_of form) (windows_of form) (has_self (windows_of form))
  add_form-Knows false p =
      set_needles-keeps (pieces_from form 4 (length form - 4)) (set_needle (whole form) p.needles)
        (set_needle-adds p.needles)

  add_forms-Knows :
      (is_long : Bool) (forms : List Text) (p : Patterns)
      → Elem form forms
      → Knows (add_forms is_long forms p) is_long form
  unfolding add_forms
  add_forms-Knows is_long [] p h = absurd h.1
  add_forms-Knows is_long (f ∷ forms) p (inl e) =
      subst (λ g. Knows (add_forms is_long forms (add_form is_long g p)) is_long form) e
        (add_forms-keeps is_long is_long forms (add_form is_long form p) (add_form-Knows is_long p))
  add_forms-Knows is_long (f ∷ forms) p (inr h) =
      add_forms-Knows is_long forms (add_form is_long f p) h

  add_secrets-Knows :
      (c : ℕ) (s : Text) (secrets : List Text) (p : Patterns)
      → Elem (c ∷ s) secrets
      → Elem form (forms_of (c ∷ s))
      → Knows (add_secrets secrets p) (leb 16 (length (c ∷ s))) form
  unfolding add_secrets add_secret
  add_secrets-Knows c s [] p m h = absurd m.1
  add_secrets-Knows c s (x ∷ secrets) p (inl e) h =
      subst (λ y. Knows (add_secrets secrets (add_secret y p)) (leb 16 (length (c ∷ s))) form) e
        (add_secrets-keeps (leb 16 (length (c ∷ s))) secrets (add_secret (c ∷ s) p)
          (add_forms-Knows (leb 16 (length (c ∷ s))) (forms_of (c ∷ s)) p h))
  add_secrets-Knows c s (x ∷ secrets) p (inr m) h =
      add_secrets-Knows c s secrets (add_secret x p) m h

has-Elem : (x : Text) (seen : List Text) → has_text seen x ≡ true → Elem x seen
unfolding has_text
has-Elem x [] h = cc
has-Elem x (y ∷ seen) h = elim (Bool-cases (text_eq x y)) [
  | inl e ↦ inl (text_eq_sound x y e)
  | inr e ↦ inr (has-Elem x seen (ground arith))
]

-- Where an element was seen already, or is new.
abbrev Kept : Text → List Text → List Text → Type 0
Kept x seen xs = Elem x seen ⊎ Elem x xs

Kept-old :
    (x y : Text) (seen ys rest : List Text)
    → Elem y seen
    → Elem x (y ∷ ys)
    → (Elem x ys → Kept x seen rest)
    → Kept x seen rest
Kept-old x y seen ys rest m (inl same) later = inl (subst (λ z. Elem z seen) (sym same) m)
Kept-old x y seen ys rest m (inr h) later = later h

Kept-new :
    (x y : Text) (seen ys rest : List Text)
    → Elem x (y ∷ ys)
    → (Elem x ys → Kept x (y ∷ seen) rest)
    → Kept x seen (y ∷ rest)
Kept-new x y seen ys rest (inl same) later = inr (inl same)
Kept-new x y seen ys rest (inr h) later = elim (later h) [
  | inl (inl same) ↦ inr (inl same)
  | inl (inr m) ↦ inl m
  | inr m ↦ inr (inr m)
]

Elem-distinct_from :
    (x : Text) (seen xs : List Text) → Elem x xs → Kept x seen (distinct_from seen xs)
unfolding distinct_from
Elem-distinct_from x seen [] h = absurd h.1
Elem-distinct_from x seen (y ∷ ys) h = elim (Bool-cases (has_text seen y)) [
  | inl e ↦
      rw (e, distinct_from)
        (Kept-old x y seen ys (distinct_from seen ys) (has-Elem y seen e) h
          (Elem-distinct_from x seen ys))
  | inr e ↦
      rw (e, distinct_from)
        (Kept-new x y seen ys (distinct_from (y ∷ seen) ys) h (Elem-distinct_from x (y ∷ seen) ys))
]

Elem-distinct : (x : Text) (xs : List Text) → Elem x xs → Elem x (distinct_from [] xs)
Elem-distinct x xs h = elim (Elem-distinct_from x [] xs h) [ inl m ↦ absurd m.1 | inr m ↦ m ]

-- Of every form of a secret, the patterns hold every window if the secret is long, and the form
-- whole if it is not.
pub compile-Knows :
    (c : ℕ) (s : Text) (form : Text) (secrets : List Text)
    → Elem (c ∷ s) secrets
    → Elem form (forms_of (c ∷ s))
    → Knows (compile secrets) (leb 16 (length (c ∷ s))) form
unfolding compile
compile-Knows c s form secrets m h =
    add_secrets-Knows form c s (distinct_from [] secrets) (record { windows = []; needles = [] })
      (Elem-distinct (c ∷ s) secrets m) h
