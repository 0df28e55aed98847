-- ===== src/Credentials/Redact/Lengths.antt =====
-- How long the forms of a secret are, `formsOf` of packages/core/src/credentials/redact.ts.
use mathlib.Core.Option
use verif_ai.Common.{
  ℕ, ◌+◌, ◌≤◌, ◌≡◌, Bool, true, false, ◌&&◌, ◌||◌, Option, none, some, inl, inr, List, [], ◌∷◌,
  ◌++◌, Text, ltb, if◌then◌else◌, length, length-append, All, arith, Bool-cases, ◌==◌,
}
use verif_ai.Credentials.Redact.Forms.{
  json_body, json_unit, percent_encoded, percent_point, pair_point, is_unreserved, is_high, is_low,
}
use verif_ai.Credentials.Redact.{has_text, distinct_from, forms_with, forms_of}

length-if :
    (b : Bool) (x y : Text) {n : ℕ} → n ≤ length x → n ≤ length y → n ≤ length (if b then x else y)
length-if true x y h k = h
length-if false x y h k = k

json_unit-ne-nil : (c : ℕ) → 1 ≤ length (json_unit c)
json_unit-ne-nil c =
    let short : (d : ℕ) → 1 ≤ length (b'\\' ∷ d ∷ []) = λ d. omega arith in
    length-if (c == b'"' || c == b'\\') _ _ (short c) (
      length-if (c == 8) _ _ (short b'b') (
        length-if (c == 9) _ _ (short b't') (
          length-if (c == 10) _ _ (short b'n') (
            length-if (c == 12) _ _ (short b'f') (
              length-if (c == 13) _ _ (short b'r')
                (length-if (ltb c 32 || is_high c || is_low c) _ _ (omega arith) (omega arith)))))))

length-json_body : (s : Text) → length s ≤ length (json_body s)
unfolding json_body
length-json_body [] = omega arith
length-json_body (c ∷ []) = json_unit-ne-nil c
length-json_body (c ∷ d ∷ r) = elim (Bool-cases (is_high c && is_low d)) [
  | inl e ↦ rw (e, json_body) (omega (arith, length-json_body r))
  | inr e ↦
      rw (e, json_body)
        (omega (
          arith,
          length-append (json_unit c) (json_body (d ∷ r)),
          json_unit-ne-nil c,
          length-json_body (d ∷ r),
        ))
]

percent_point-ne-nil : (c : ℕ) → 1 ≤ length (percent_point c)
percent_point-ne-nil c = length-if (is_unreserved c) _ _ (omega arith) (
    length-if (ltb c 0x80) _ _ (omega arith) (
      length-if (ltb c 0x800) _ _ (omega arith)
        (length-if (ltb c 0x10000) _ _ (omega arith) (omega arith))))

unreserved-le : (c : ℕ) → is_unreserved c ≡ true → c ≤ 126
unreserved-le c h = ground arith

percent_pair : (c : ℕ) → 127 ≤ c → 2 ≤ length (percent_point c)
percent_pair c h = elim (Bool-cases (is_unreserved c)) [
  | inl e ↦ absurd (omega (arith, unreserved-le c e))
  | inr e ↦ rw e (
      length-if (ltb c 0x80) _ _ (omega arith) (
        length-if (ltb c 0x800) _ _ (omega arith)
          (length-if (ltb c 0x10000) _ _ (omega arith) (omega arith))))
]

abbrev Grows : Text → Option Text → Type 0
Grows s none = Unit
Grows s (some e) = length s ≤ length e

map-Grows :
    (point r : Text) (o : Option Text) (s : Text)
    → Grows r o
    → length s ≤ length point + length r
    → Grows s (Option.map (λ rest. point ++ rest) o)
map-Grows point r none s g h = tt
map-Grows point r (some e) s g h = omega (arith, length-append point e)

forms_with-Grows :
    (secret : Text) (encoded : Option Text)
    → Grows secret encoded
    → All (λ form. length secret ≤ length form) (forms_with secret encoded)
forms_with-Grows secret none g = (omega arith, (length-json_body secret, tt))
forms_with-Grows secret (some e) g = (omega arith, (length-json_body secret, (g, tt)))

pub distinct_from-All :
    (P : Text → Type 0) (seen xs : List Text) → All P xs → All P (distinct_from seen xs)
unfolding distinct_from
distinct_from-All P seen [] h = tt
distinct_from-All P seen (x ∷ xs) h = elim (Bool-cases (has_text seen x)) [
  | inl e ↦ rw (e, distinct_from) (distinct_from-All P seen xs h.1)
  | inr e ↦ rw (e, distinct_from) ((h.0, distinct_from-All P (x ∷ seen) xs h.1))
]

percent_encoded-Grows : (s : Text) → Grows s (percent_encoded s)
unfolding percent_encoded
percent_encoded-Grows [] = omega arith
percent_encoded-Grows (c ∷ []) = elim (Bool-cases (is_high c || is_low c)) [
  | inl e ↦ rw e tt
  | inr e ↦ rw e (percent_point-ne-nil c)
]
percent_encoded-Grows (c ∷ d ∷ r) = elim (Bool-cases (is_high c && is_low d)) [
  | inl e ↦
      rw (e, percent_encoded)
        (map-Grows (percent_point (pair_point c d)) r (percent_encoded r) (c ∷ d ∷ r)
          (percent_encoded-Grows r) (omega (arith, percent_pair (pair_point c d) (omega arith))))
  | inr e ↦
      rw (e, percent_encoded)
        (elim (Bool-cases (is_high c || is_low c)) [
          | inl lone ↦ rw lone tt
          | inr single ↦ rw single (
              map-Grows (percent_point c) (d ∷ r) (percent_encoded (d ∷ r)) (c ∷ d ∷ r)
                (percent_encoded-Grows (d ∷ r)) (omega (arith, percent_point-ne-nil c)))
        ])
]

-- Every form of a secret is as long as the secret at least.
pub forms_of-Grows : (secret : Text) → All (λ form. length secret ≤ length form) (forms_of secret)
unfolding forms_of
forms_of-Grows secret =
    distinct_from-All (λ form. length secret ≤ length form) []
      (forms_with secret (percent_encoded secret))
      (forms_with-Grows secret (percent_encoded secret) (percent_encoded-Grows secret))
