-- ===== src/Credentials/Redact/Compile.antt =====
-- `compile` of packages/core/src/credentials/redact.ts: what the patterns hold for each form of each
-- secret, and that a needle's span lies in what it finds.
use verif_ai.Common.{
  length-take, length-drop, ℕ, zero, suc, ◌+◌, ◌-◌, ◌≤◌, ◌<◌, ◌≡◌, Bool, true, false, ◌⊎◌, inl, inr,
  List, [], ◌∷◌, ◌++◌, Text, leb, length, length-append, take, drop, All, All-append, any, arith,
  Bool-cases, leb→le,
}
use verif_ai.Credentials.Redact.{
  Needle, Patterns, distinct_from, forms_of, cut_needles, pieces_from, short_needles,
  truncation_markers, same_needle, set_needle, set_needles, add_form, add_forms, add_secret,
  add_secrets, compile,
}
use verif_ai.Credentials.Redact.Lengths.{forms_of-Grows}

-- A needle marks a unit at least, and only what it finds.
abbrev pub IsSound : Needle → Type 0
IsSound n = (n.start < n.end) × (n.end ≤ length n.find)

cut_needles-IsSound :
    (form : Text) (size : ℕ) (markers : List Text)
    → 1 ≤ size
    → size ≤ length form
    → All IsSound (cut_needles form size markers)
cut_needles-IsSound form size [] h k = tt
cut_needles-IsSound form size (m ∷ markers) h k =
    let front : size ≤ length (take size form ++ m) =
      omega (arith, length-append (take size form) m, length-take size form k) in
    let back : length m + size ≤ length (m ++ drop (length form - size) form) = omega (
      arith,
      length-append m (drop (length form - size) form),
      length-drop (length form - size) form,
    ) in
    ((h, front), ((omega arith, back), cut_needles-IsSound form size markers h k))

pieces_from-IsSound :
    (form : Text) (size more : ℕ)
    → 1 ≤ size
    → size + more ≤ length form
    → All IsSound (pieces_from form size more)
unfolding pieces_from
pieces_from-IsSound form size zero h k = tt
pieces_from-IsSound form size (suc more) h k =
    All-append IsSound (cut_needles form size truncation_markers) (pieces_from form (suc size) more)
      (cut_needles-IsSound form size truncation_markers h (omega arith))
      (pieces_from-IsSound form (suc size) more (omega arith) (omega arith))

pieces :
    (form : Text)
    → (leb 4 (length form) ≡ true) ⊎ (leb 4 (length form) ≡ false)
    → All IsSound (pieces_from form 4 (length form - 4))
unfolding pieces_from
pieces form (inl e) =
    pieces_from-IsSound form 4 (length form - 4) (omega arith)
      (omega (arith, leb→le 4 (length form) e))
pieces form (inr e) = let nothing : length form - 4 ≡ 0 = ground arith in rw nothing tt

short_needles-IsSound : (form : Text) → 1 ≤ length form → All IsSound (short_needles form)
unfolding short_needles
short_needles-IsSound form h = ((h, omega arith), pieces form (Bool-cases (leb 4 (length form))))

set_needle-IsSound :
    (n : Needle) (needles : List Needle)
    → IsSound n
    → All IsSound needles
    → All IsSound (set_needle n needles)
set_needle-IsSound n needles h k = elim (Bool-cases (any (same_needle n) needles)) [
  | inl e ↦ rw e k
  | inr e ↦ rw e (All-append IsSound needles (n ∷ []) k (h, tt))
]

set_needles-IsSound :
    (more needles : List Needle)
    → All IsSound more
    → All IsSound needles
    → All IsSound (set_needles more needles)
unfolding set_needles
set_needles-IsSound [] needles h k = k
set_needles-IsSound (n ∷ more) needles h k =
    set_needles-IsSound more (set_needle n needles) h.1 (set_needle-IsSound n needles h.0 k)

abbrev pub HasSound : Patterns → Type 0
HasSound patterns = All IsSound patterns.needles

add_forms-HasSound :
    (is_long : Bool) (forms : List Text) (patterns : Patterns)
    → All (λ form. 1 ≤ length form) forms
    → HasSound patterns
    → HasSound (add_forms is_long forms patterns)
unfolding add_forms
add_forms-HasSound is_long [] patterns h k = k
add_forms-HasSound true (f ∷ forms) patterns h k =
    add_forms-HasSound true forms (add_form true f patterns) h.1 k
add_forms-HasSound false (f ∷ forms) patterns h k =
    add_forms-HasSound false forms (add_form false f patterns) h.1
      (set_needles-IsSound (short_needles f) patterns.needles (short_needles-IsSound f h.0) k)

weaken :
    {m n : ℕ} (forms : List Text)
    → m ≤ n
    → All (λ f. n ≤ length f) forms
    → All (λ f. m ≤ length f) forms
weaken [] h k = tt
weaken (f ∷ forms) h k = (omega arith, weaken forms h k.1)

add_secret-HasSound : (s : Text) (p : Patterns) → HasSound p → HasSound (add_secret s p)
unfolding add_secret
add_secret-HasSound [] p h = h
add_secret-HasSound (c ∷ s) p h =
    add_forms-HasSound (leb 16 (length (c ∷ s))) (forms_of (c ∷ s)) p
      (weaken (forms_of (c ∷ s)) (omega arith) (forms_of-Grows (c ∷ s))) h

add_secrets-HasSound : (l : List Text) (p : Patterns) → HasSound p → HasSound (add_secrets l p)
unfolding add_secrets
add_secrets-HasSound [] p h = h
add_secrets-HasSound (s ∷ l) p h =
    add_secrets-HasSound l (add_secret s p) (add_secret-HasSound s p h)

pub compile-HasSound : (secrets : List Text) → HasSound (compile secrets)
unfolding compile
compile-HasSound secrets =
    add_secrets-HasSound (distinct_from [] secrets) (record { windows = []; needles = [] }) tt
