-- ===== src/Node/Decimal.antt =====
-- `String` of a count of bytes, for packages/node/src/transport.ts. It is recursion on fuel, one more
-- than the number, of which each digit takes one.
use verif_ai.Common.{
  ℕ, zero, suc, ◌+◌, ◌*◌, ◌-◌, ◌/◌, ◌%◌, ◌<◌, ◌≡◌, ap, ◌∙◌, true, [], ◌∷◌, Text, decimal_from, ltb,
  if◌then◌else◌, arith, Bool-cases, inl, inr,
}

unfoldable decimal_with : ℕ → ℕ → Text → Text
decimal_with zero n text = text
decimal_with (suc fuel) n text =
    let rest = decimal_with fuel (n / 10) ((48 + n % 10) ∷ text) in
    if ltb n 10 then (48 + n % 10) ∷ text else rest

unfoldable pub decimal : ℕ → Text
unfolding decimal_with
decimal n = decimal_with (suc n) n []

one_digit : (n : ℕ) → ltb n 10 ≡ true → 0 * 10 + (48 + n % 10 - 48) ≡ n
one_digit n h = ground arith

more_digits : (n : ℕ) → n / 10 * 10 + (48 + n % 10 - 48) ≡ n
more_digits n = omega arith

decimal_with_lem :
    (fuel n : ℕ) (text : Text)
    → n < fuel
    → decimal_from 0 (decimal_with fuel n text) ≡ decimal_from n text
unfolding decimal_with
decimal_with_lem zero n text h = absurd (omega arith)
decimal_with_lem (suc fuel) n text h = elim (Bool-cases (ltb n 10)) [
  | inl small ↦ rw small (ap (λ k. decimal_from k text) (one_digit n small))
  | inr large ↦ rw large (
      decimal_with_lem fuel (n / 10) ((48 + n % 10) ∷ text) (ground arith)
      ∙ ap (λ k. decimal_from k text) (more_digits n))
]

-- The text of a number reads back as the number, so that the fuel is enough.
pub decimal_from-decimal : (n : ℕ) → decimal_from 0 (decimal n) ≡ n
unfolding decimal
decimal_from-decimal n = decimal_with_lem (suc n) n [] (omega arith)
