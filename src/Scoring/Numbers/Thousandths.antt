-- ===== src/Scoring/Numbers/Thousandths.antt =====
-- A model of the interface, for concrete runs: whole thousandths, with coarse functions.
use verif_ai.Common.{
  ℕ, ◌-◌, ◌*◌, ◌/◌, ◌^◌, ◌≤◌, ◌<◌, ◌≡◌, refl, true, false, ◌⊎◌, arith, leb, if◌then◌else◌,
}
use verif_ai.Common.Int.{ℤ, pos, negsuc, ◌+ℤ◌, ◌-ℤ◌, le_ℤ, +ℤ_parts, -ℤ_parts, eq_of_parts}
use verif_ai.Scoring.Numbers.Order.{Numbers}

abbrev pub minus : ℕ → ℤ
minus k = if leb k 0 then pos 0 else negsuc (k - 1)

abbrev pub times : ℤ → ℤ → ℤ
times (pos a) (pos b) = pos (a * b / 1000)
times _ _ = pos 0

abbrev pub over : ℤ → ℤ → ℤ
over (pos a) (pos b) = pos (a * 1000 / b)
over _ _ = pos 0

-- x ** y for x between 0.05 and 1: 0.9 for a root of degree 30 or more, and else x, the least that
-- a root can be.
abbrev pub bounded_power : ℤ → ℤ → ℤ
bounded_power a b = if le_ℤ b (pos 34) then pos 900 else a

pub power_between_nonneg :
    (a b : ℤ) → le_ℤ (pos 0) a ≡ true → le_ℤ (pos 0) (bounded_power a b) ≡ true
power_between_nonneg a b h = ground arith

pub power_between_le :
    (a b : ℤ) → le_ℤ a (pos 1000) ≡ true → le_ℤ (bounded_power a b) (pos 1000) ≡ true
power_between_le a b h = ground arith

-- Powers of ten at whole exponents, rounded down.
abbrev pub power : ℤ → ℤ
power (pos a) = pos (1000 * 10 ^ (a / 1000))
power (negsuc a) = pos (100 / 10 ^ (a / 1000))

abbrev pub logarithm : ℤ → ℤ
logarithm (pos a) = if leb 1000 a then pos 0 else if leb 100 a then minus 1000 else minus 2000
logarithm (negsuc a) = minus 3000

ruleset ints = (arith, +ℤ_parts, -ℤ_parts, eq_of_parts)

pub le_total : (a b : ℤ) → (le_ℤ a b ≡ true) ⊎ (le_ℤ b a ≡ true)
le_total a b = ground arith

pub le_trans : (a b c : ℤ) → le_ℤ a b ≡ true → le_ℤ b c ≡ true → le_ℤ a c ≡ true
le_trans a b c h k = ground arith

pub minus-le : (j k : ℕ) → le_ℤ (minus j) (pos k) ≡ true
minus-le j k = ground arith

pub minus_mono : (j k : ℕ) → k ≤ j → le_ℤ (minus j) (minus k) ≡ true
minus_mono j k h = ground arith

pub add_mono : (a b c d : ℤ) → le_ℤ a b ≡ true → le_ℤ c d ≡ true → le_ℤ (a +ℤ c) (b +ℤ d) ≡ true
add_mono a b c d h k = ground (arith, +ℤ_parts a c, +ℤ_parts b d)

pub zero-add : (a : ℤ) → pos 0 +ℤ a ≡ a
zero-add a = eq_of_parts (pos 0 +ℤ a) a (omega (arith, +ℤ_parts (pos 0) a))

pub add-zero : (a : ℤ) → a +ℤ pos 0 ≡ a
add-zero a = eq_of_parts (a +ℤ pos 0) a (omega (arith, +ℤ_parts a (pos 0)))

pub sub_nonneg : (a b : ℤ) → le_ℤ b a ≡ true → le_ℤ (pos 0) (a -ℤ b) ≡ true
sub_nonneg a b h = ground (arith, -ℤ_parts a b)

pub sub_le : (a b : ℤ) → le_ℤ (pos 0) b ≡ true → le_ℤ (a -ℤ b) a ≡ true
sub_le a b h = ground (arith, -ℤ_parts a b)

pub sub_self : (a : ℤ) → a -ℤ a ≡ pos 0
sub_self a = eq_of_parts (a -ℤ a) (pos 0) (omega (arith, -ℤ_parts a a))

pub times_nonneg :
    (a b : ℤ) → le_ℤ (pos 0) a ≡ true → le_ℤ (pos 0) b ≡ true → le_ℤ (pos 0) (times a b) ≡ true
times_nonneg a b h k = ground arith

pub over_nonneg :
    (a b : ℤ) → le_ℤ (pos 0) a ≡ true → le_ℤ (pos 1000) b ≡ true → le_ℤ (pos 0) (over a b) ≡ true
over_nonneg a b h k = ground arith

quotient_le : (a b : ℕ) → a ≤ b → 1000 ≤ b → a * 1000 / b ≤ 1000
quotient_le a b h k = grind arith

pub over_le_one :
    (a b : ℤ) → le_ℤ a b ≡ true → le_ℤ (pos 1000) b ≡ true → le_ℤ (over a b) (pos 1000) ≡ true
over_le_one (pos a) (pos b) h k = ground (arith, quotient_le a b)
over_le_one (negsuc a) (pos b) h k = refl
over_le_one (pos a) (negsuc b) h k = refl
over_le_one (negsuc a) (negsuc b) h k = refl

pub power_nonneg : (a : ℤ) → le_ℤ (pos 0) (power a) ≡ true
power_nonneg a = ground arith

half_power_le : (k : ℕ) → 1000 / 2 ^ k ≤ 1000
half_power_le k = grind arith

pub half_power : (k : ℕ) → le_ℤ (pos (1000 / 2 ^ k)) (pos 1000) ≡ true
half_power k = ground (arith, half_power_le k)

pub half_power_nonneg : (k : ℕ) → le_ℤ (pos 0) (pos (1000 / 2 ^ k)) ≡ true
half_power_nonneg k = ground arith

pub pos_mono : (j k : ℕ) → j ≤ k → le_ℤ (pos j) (pos k) ≡ true
pos_mono j k h = ground arith

pub pos_strict : (j k : ℕ) → j ≤ 1000 → k < j → le_ℤ (pos j) (pos k) ≡ false
pos_strict j k small h = ground arith

abbrev pub thousandths : Numbers
thousandths = record {
  Num = ℤ;
  le = le_ℤ;
  add = ◌+ℤ◌;
  sub = ◌-ℤ◌;
  mul = times;
  div = over;
  milli = pos;
  minus_milli = minus;
  billionth = pos 0;
  quadrillionth = pos 0;
  wilson_z = pos 1960;
  minus_infinity = minus 1000000;
  log10 = logarithm;
  log = logarithm;
  log1p = logarithm;
  exp = power;
  sqrt = λ a. a;
  pow = bounded_power;
  pow10 = power;
  pow2_minus = λ k. pos (1000 / 2 ^ k);
  round9 = λ a. a;
  le_total = le_total;
  le_trans = le_trans;
  milli_mono = pos_mono;
  milli_strict = pos_strict;
  minus_milli-le = minus-le;
  minus_milli_mono = minus_mono;
  add_mono = add_mono;
  zero-add = zero-add;
  add-zero = add-zero;
  one-add-one =
      eq_of_parts (pos 1000 +ℤ pos 1000) (pos 2000) (omega (arith, +ℤ_parts (pos 1000) (pos 1000)));
  sub_nonneg = sub_nonneg;
  sub_le = sub_le;
  sub_self = sub_self;
  mul_nonneg = times_nonneg;
  div_nonneg = over_nonneg;
  div_le_one = over_le_one;
  pow10_nonneg = power_nonneg;
  pow10-zero = refl;
  pow2_minus_nonneg = half_power_nonneg;
  pow2_minus_le_one = half_power;
  pow_nonneg = power_between_nonneg;
  pow_le_one = λ a b h k l. power_between_le a b k;
  round9_mono = λ a b h. h;
  round9-milli = λ k. refl;
}
