-- ===== src/Scoring/Dispersion/Bounds.antt =====
-- The intervals of packages/core/src/scoring/dispersion.ts are intervals of probabilities.
use verif_ai.Common.{
  ℕ, zero, suc, ◌+◌, ◌*◌, ◌≤◌, Bool, true, false, arith, Bool-cases, if◌then◌else◌, inl, inr, leb,
  ◌==◌,
}
use mathlib.Core.Path.{subst}
use verif_ai.Scoring.Numbers.{
  Numbers, Le, IsUnit, least, greatest, Le-refl, least-le_left, le-least, greatest-ge_left,
}
use verif_ai.Scoring.Dispersion.{
  bisection_steps, whole, alpha, bisect, exact_upper, wilson, lower, upper, Side, epsilon_interval,
}

module _ (n : Numbers) where
  open n use {
    Num, le, add, sub, div, milli, pow, le_trans, milli_mono, add_mono, zero-add, sub_nonneg,
    sub_le, div_nonneg, div_le_one, pow_nonneg, pow_le_one, one-add-one, quadrillionth,
  }

  pub zero_IsUnit : IsUnit n (milli 0)
  zero_IsUnit = (Le-refl n (milli 0), milli_mono 0 1000 (omega arith))

  pub one_IsUnit : IsUnit n (milli 1000)
  one_IsUnit = (milli_mono 0 1000 (omega arith), Le-refl n (milli 1000))

  pub complement_IsUnit : (a : Num) → IsUnit n a → IsUnit n (sub (milli 1000) a)
  complement_IsUnit a (low, high) = (sub_nonneg (milli 1000) a high, sub_le (milli 1000) a low)

  pub half_IsUnit : (a b : Num) → IsUnit n a → IsUnit n b → IsUnit n (div (add a b) (milli 2000))
  half_IsUnit a b (low, high) (low', high') = (
    div_nonneg (add a b) (milli 2000)
        (subst (λ u. Le n u (add a b)) (zero-add (milli 0))
          (add_mono (milli 0) a (milli 0) b low low'))
        (milli_mono 1000 2000 (omega arith)),
    div_le_one (add a b) (milli 2000)
        (subst (Le n (add a b)) one-add-one (add_mono a (milli 1000) b (milli 1000) high high'))
        (milli_mono 1000 2000 (omega arith)),
  )

  pub if_IsUnit : (b : Bool) (x y : Num) → IsUnit n x → IsUnit n y → IsUnit n (if b then x else y)
  if_IsUnit true x y h k = h
  if_IsUnit false x y h k = k

  -- Every step of the bisection keeps both ends between 0 and 1.
  bisect-IsUnit :
      (x m steps : ℕ) (low high : Num)
      → IsUnit n low
      → IsUnit n high
      → IsUnit n ((bisect n x m steps low high).0) × IsUnit n ((bisect n x m steps low high).1)
  unfolding bisect
  bisect-IsUnit x m zero low high h k = (h, k)
  bisect-IsUnit x m (suc steps) low high h k = elim (Bool-cases (le (sub high low) quadrillionth)) [
    | inl stop ↦ rw stop (h, k)
    | inr go ↦ rw go (
        bisect-IsUnit x m steps _ _ (if_IsUnit _ _ _ (half_IsUnit low high h k) h)
          (if_IsUnit _ _ _ k (half_IsUnit low high h k)))
  ]

  inverse_nonneg : (m : ℕ) → 1 ≤ m → Le n (milli 0) (div (milli 1000) (whole n m))
  inverse_nonneg m h =
      div_nonneg (milli 1000) (whole n m) (milli_mono 0 1000 (omega arith))
        (milli_mono 1000 (1000 * m) (omega arith))

  alpha_power_IsUnit : (m : ℕ) → 1 ≤ m → IsUnit n (pow (alpha n) (div (milli 1000) (whole n m)))
  alpha_power_IsUnit m h = (
    pow_nonneg _ _ (milli_mono 0 50 (omega arith)),
    pow_le_one _ _ (milli_mono 0 50 (omega arith)) (milli_mono 50 1000 (omega arith))
        (inverse_nonneg m h),
  )

  pub exact_upper-IsUnit : (x m : ℕ) → IsUnit n (exact_upper n x m)
  unfolding exact_upper
  exact_upper-IsUnit x m = elim (Bool-cases (leb m x)) [
    | inl e ↦ rw e one_IsUnit
    | inr e ↦ elim (Bool-cases (x == 0)) [
      | inl z ↦ rw (e, z) (complement_IsUnit _ (alpha_power_IsUnit m (ground arith)))
      | inr z ↦
          let (low, high) =
            bisect-IsUnit x m bisection_steps (milli 0) (milli 1000) zero_IsUnit one_IsUnit in
          rw (e, z) (half_IsUnit _ _ low high)
    ]
  ]

  clamped_IsUnit : (a : Num) → IsUnit n (least n (milli 1000) (greatest n (milli 0) a))
  clamped_IsUnit a = (
    le-least n (milli 1000) (greatest n (milli 0) a) (milli 0) (milli_mono 0 1000 (omega arith))
        (greatest-ge_left n (milli 0) a),
    least-le_left n (milli 1000) (greatest n (milli 0) a),
  )

  pub wilson-IsUnit : (x m : ℕ) (side : Side) → IsUnit n (wilson n x m side)
  unfolding wilson
  wilson-IsUnit x m lower = if_IsUnit _ _ _ zero_IsUnit (clamped_IsUnit _)
  wilson-IsUnit x m upper = if_IsUnit _ _ _ one_IsUnit (clamped_IsUnit _)

  -- Whatever the counts of disagreeing, readable and lost draws, both ends of the interval are
  -- between 0 and 1.
  pub epsilon_interval-IsUnit :
      (d q m : ℕ)
      → IsUnit n ((epsilon_interval n d q m).0) × IsUnit n ((epsilon_interval n d q m).1)
  unfolding epsilon_interval
  epsilon_interval-IsUnit d q m = elim (Bool-cases (q == 0)) [
    | inl e ↦ rw e (zero_IsUnit, one_IsUnit)
    | inr e ↦ elim (Bool-cases (d == 0)) [
      | inl f ↦ rw (e, f) (zero_IsUnit, exact_upper-IsUnit m (q + m))
      | inr f ↦ elim (Bool-cases (d == q)) [
        | inl g ↦ rw (e, f, g) (complement_IsUnit _ (exact_upper-IsUnit m (q + m)), one_IsUnit)
        | inr g ↦ rw (e, f, g) (wilson-IsUnit d (q + m) lower, wilson-IsUnit (d + m) (q + m) upper)
      ]
    ]
  ]
