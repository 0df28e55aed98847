-- ===== src/Scoring/Numbers/Order.antt =====
-- The interface, and what follows from its laws of order for Math.min, Math.max and a clamp.
use verif_ai.Common.{
  ℕ, ◌≤◌, ◌<◌, ◌≡◌, refl, Bool, true, false, ◌⊎◌, inl, inr, Bool-cases, if◌then◌else◌,
}

pub record Numbers : Type 1 where
  pub Num : Type 0
  pub le : Num → Num → Bool
  pub add : Num → Num → Num
  pub sub : Num → Num → Num
  pub mul : Num → Num → Num
  pub div : Num → Num → Num
  -- k / 1000, and its negation, as the source writes them in decimals.
  pub milli : ℕ → Num
  pub minus_milli : ℕ → Num
  -- 1e-9
  pub billionth : Num
  -- 1e-15, 1.959963984540054, and Number.NEGATIVE_INFINITY.
  pub quadrillionth : Num
  pub wilson_z : Num
  pub minus_infinity : Num
  -- The Math functions, 10 ** x and 2 ** -k, and Math.round(x * 1e9) / 1e9.
  pub log10 : Num → Num
  pub log : Num → Num
  pub log1p : Num → Num
  pub exp : Num → Num
  pub sqrt : Num → Num
  pub pow : Num → Num → Num
  pub pow10 : Num → Num
  pub pow2_minus : ℕ → Num
  pub round9 : Num → Num
  pub le_total : (a b : Num) → (le a b ≡ true) ⊎ (le b a ≡ true)
  pub le_trans : (a b c : Num) → le a b ≡ true → le b c ≡ true → le a c ≡ true
  pub milli_mono : (j k : ℕ) → j ≤ k → le (milli j) (milli k) ≡ true
  pub milli_strict : (j k : ℕ) → j ≤ 1000 → k < j → le (milli j) (milli k) ≡ false
  pub minus_milli-le : (j k : ℕ) → le (minus_milli j) (milli k) ≡ true
  pub minus_milli_mono : (j k : ℕ) → k ≤ j → le (minus_milli j) (minus_milli k) ≡ true
  pub add_mono : (a b c d : Num) → le a b ≡ true → le c d ≡ true → le (add a c) (add b d) ≡ true
  pub zero-add : (a : Num) → add (milli 0) a ≡ a
  pub add-zero : (a : Num) → add a (milli 0) ≡ a
  pub one-add-one : add (milli 1000) (milli 1000) ≡ milli 2000
  pub sub_nonneg : (a b : Num) → le b a ≡ true → le (milli 0) (sub a b) ≡ true
  pub sub_le : (a b : Num) → le (milli 0) b ≡ true → le (sub a b) a ≡ true
  pub sub_self : (a : Num) → sub a a ≡ milli 0
  pub mul_nonneg :
      (a b : Num) → le (milli 0) a ≡ true → le (milli 0) b ≡ true → le (milli 0) (mul a b) ≡ true
  pub div_nonneg :
      (a b : Num) → le (milli 0) a ≡ true → le (milli 1000) b ≡ true → le (milli 0) (div a b) ≡ true
  pub div_le_one :
      (a b : Num) → le a b ≡ true → le (milli 1000) b ≡ true → le (div a b) (milli 1000) ≡ true
  pub pow10_nonneg : (a : Num) → le (milli 0) (pow10 a) ≡ true
  pub pow10-zero : pow10 (milli 0) ≡ milli 1000
  pub pow2_minus_nonneg : (k : ℕ) → le (milli 0) (pow2_minus k) ≡ true
  pub pow2_minus_le_one : (k : ℕ) → le (pow2_minus k) (milli 1000) ≡ true
  pub pow_nonneg : (a b : Num) → le (milli 0) a ≡ true → le (milli 0) (pow a b) ≡ true
  pub pow_le_one :
      (a b : Num)
      → le (milli 0) a ≡ true
      → le a (milli 1000) ≡ true
      → le (milli 0) b ≡ true
      → le (pow a b) (milli 1000) ≡ true
  pub round9_mono : (a b : Num) → le a b ≡ true → le (round9 a) (round9 b) ≡ true
  pub round9-milli : (k : ℕ) → round9 (milli k) ≡ milli k

module _ (n : Numbers) where
  open n use {Num, le, le_total, le_trans, milli, minus_milli, minus_milli-le}

  abbrev pub Le : Num → Num → Type 0
  Le a b = le a b ≡ true

  -- Math.min and Math.max of two numbers, and `clamp(value, limit)` with the limit k / 1000.
  unfoldable pub least : Num → Num → Num
  least a b = if le a b then a else b

  unfoldable pub greatest : Num → Num → Num
  greatest a b = if le a b then b else a

  unfoldable pub clamp : Num → ℕ → Num
  clamp value limit = greatest (minus_milli limit) (least (milli limit) value)

  pub Le-refl : (a : Num) → Le a a
  Le-refl a = elim (le_total a a) [ inl h ↦ h | inr h ↦ h ]

  flip : (a b : Num) → le a b ≡ false → Le b a
  flip a b h = elim (le_total a b) [ inl k ↦ absurd (cc) | inr k ↦ k ]

  pub least-le_left : (a b : Num) → Le (least a b) a
  unfolding least
  least-le_left a b = elim (Bool-cases (le a b)) [
    | inl h ↦ rw h (Le-refl a)
    | inr h ↦ rw h (flip a b h)
  ]

  pub least-le_right : (a b : Num) → Le (least a b) b
  unfolding least
  least-le_right a b = elim (Bool-cases (le a b)) [ inl h ↦ rw h h | inr h ↦ rw h (Le-refl b) ]

  pub le-least : (a b c : Num) → Le c a → Le c b → Le c (least a b)
  unfolding least
  le-least a b c h k = elim (Bool-cases (le a b)) [ inl e ↦ rw e h | inr e ↦ rw e k ]

  pub greatest-ge_left : (a b : Num) → Le a (greatest a b)
  unfolding greatest
  greatest-ge_left a b = elim (Bool-cases (le a b)) [ inl h ↦ rw h h | inr h ↦ rw h (Le-refl a) ]

  pub greatest-ge_right : (a b : Num) → Le b (greatest a b)
  unfolding greatest
  greatest-ge_right a b = elim (Bool-cases (le a b)) [
    | inl h ↦ rw h (Le-refl b)
    | inr h ↦ rw h (flip a b h)
  ]

  pub greatest-le : (a b c : Num) → Le a c → Le b c → Le (greatest a b) c
  unfolding greatest
  greatest-le a b c h k = elim (Bool-cases (le a b)) [ inl e ↦ rw e k | inr e ↦ rw e h ]

  -- x lies between -k / 1000 and k / 1000.
  abbrev pub Within : ℕ → Num → Type 0
  Within k x = Le (minus_milli k) x × Le x (milli k)

  pub clamp-Within : (value : Num) (limit : ℕ) → Within limit (clamp value limit)
  unfolding clamp
  clamp-Within value limit = (
    greatest-ge_left (minus_milli limit) (least (milli limit) value),
    greatest-le (minus_milli limit) (least (milli limit) value) (milli limit)
        (minus_milli-le limit limit) (least-le_left (milli limit) value),
  )

  -- A clamp to a wider range keeps a narrower one.
  pub clamp-Within_inner :
      (value : Num) (k limit : ℕ) → Within k value → Within k (clamp value limit)
  unfolding clamp
  clamp-Within_inner value k limit (low, high) = (
    le_trans (minus_milli k) (least (milli limit) value) _
        (le-least (milli limit) value (minus_milli k) (minus_milli-le k limit) low)
        (greatest-ge_right (minus_milli limit) (least (milli limit) value)),
    greatest-le (minus_milli limit) (least (milli limit) value) (milli k) (minus_milli-le limit k) (
        le_trans (least (milli limit) value) value (milli k) (least-le_right (milli limit) value)
          high),
  )

  -- A probability.
  abbrev pub IsUnit : Num → Type 0
  IsUnit x = Le (milli 0) x × Le x (milli 1000)

  pub greatest-eq_right : (a b : Num) → le a b ≡ true → greatest a b ≡ b
  unfolding greatest
  greatest-eq_right a b e = rw e refl

  pub greatest-eq_left : (a b : Num) → le a b ≡ false → greatest a b ≡ a
  unfolding greatest
  greatest-eq_left a b e = rw e refl
