-- ===== src/Scoring/Ceiling/Range.antt =====
-- The value of `ceilingFor` in packages/core/src/scoring/ceiling.ts is a confidence, never certainty.
use verif_ai.Common.{
  ◌⊎◌, ℕ, ◌≤◌, ◌≡◌, Bool, true, false, arith, Bool-cases, if◌then◌else◌, inl, inr, List, length,
  ◌==◌,
}
use mathlib.Core.Path.{subst}
use verif_ai.Types.Run.{ProbeOutcome, group_b, group_c, group_d}
use verif_ai.Types.Target.{Pairing}
use verif_ai.Scoring.Numbers.{Numbers, Le, Le-refl, greatest-ge_left, greatest-le}
use verif_ai.Scoring.Aggregate.{Signal}
use verif_ai.Scoring.Ceiling.{
  is_cross, documented_only, cross_protocol_reduction, documented_only_reduction,
  applicable_outcomes, group_ran, covered_value, coverage, gap_share, ceiling_for, gap_reduction,
}

module _ (n : Numbers) where
  open n use {
    Num, le, sub, mul, div, milli, round9, le_trans, milli_mono, sub_le, mul_nonneg, div_nonneg,
    round9_mono, round9-milli,
  }

  gap_share_nonneg : (outcomes : List ProbeOutcome) → Le n (milli 0) (gap_share n outcomes)
  unfolding gap_share
  gap_share_nonneg outcomes = elim (Bool-cases (length (applicable_outcomes outcomes) == 0)) [
    | inl e ↦ rw e (Le-refl n (milli 0))
    | inr e ↦
        rw e (div_nonneg _ _ (milli_mono 0 _ (omega arith)) (milli_mono 1000 _ (ground arith)))
  ]

  reduction_nonneg : (b : Bool) (k : ℕ) → Le n (milli 0) (if b then milli k else milli 0)
  reduction_nonneg true k = milli_mono 0 k (omega arith)
  reduction_nonneg false k = Le-refl n (milli 0)

  -- The value never exceeds what the coverage allows.
  pub value_le_covered :
      (outcomes : List ProbeOutcome) (signals : List (Signal n)) (pairing : Pairing)
      → Le n ((ceiling_for n outcomes signals pairing).value) (milli ((coverage outcomes).0))
  unfolding ceiling_for
  value_le_covered outcomes signals pairing =
      greatest-le n (milli 0) (round9 _) _ (milli_mono 0 _ (omega arith)) (
        subst (Le n (round9 _)) (round9-milli ((coverage outcomes).0)) (
          round9_mono _ (milli ((coverage outcomes).0)) (
            le_trans _ _ _
              (sub_le _ _ (reduction_nonneg (documented_only n signals) documented_only_reduction))
              (le_trans _ _ _
                (sub_le _ _ (
                  mul_nonneg _ _ (milli_mono 0 gap_reduction (omega arith))
                    (gap_share_nonneg outcomes)))
                (sub_le _ _ (reduction_nonneg (is_cross pairing) cross_protocol_reduction))))))

  value_nonneg :
      (outcomes : List ProbeOutcome) (signals : List (Signal n)) (pairing : Pairing)
      → Le n (milli 0) ((ceiling_for n outcomes signals pairing).value)
  unfolding ceiling_for
  value_nonneg outcomes signals pairing = greatest-ge_left n (milli 0) (round9 _)

  covered_bounds :
      (b c d : Bool)
      → (covered_value b c d ≤ 980)
        × (((b ≡ true) × (c ≡ true)) ⊎ (covered_value b c d ≤ 750))
        × (((b ≡ true) ⊎ (c ≡ true)) ⊎ (covered_value b c d ≤ 600))
        × ((d ≡ true) ⊎ (covered_value b c d ≤ 880))
  covered_bounds b c d = ground arith

  -- The value of the ceiling, whatever ran, was skipped and was read. It is between 0 and 0.98. It is
  -- 0.75 at most unless the groups B and C both ran, 0.6 at most unless one of them did, and 0.88 at
  -- most unless group D ran.
  pub ceiling_for-range :
      (outcomes : List ProbeOutcome) (signals : List (Signal n)) (pairing : Pairing)
      → Le n (milli 0) ((ceiling_for n outcomes signals pairing).value)
        × Le n ((ceiling_for n outcomes signals pairing).value) (milli 980)
        × (((group_ran outcomes group_b ≡ true) × (group_ran outcomes group_c ≡ true))
            ⊎ Le n ((ceiling_for n outcomes signals pairing).value) (milli 750))
        × (((group_ran outcomes group_b ≡ true) ⊎ (group_ran outcomes group_c ≡ true))
            ⊎ Le n ((ceiling_for n outcomes signals pairing).value) (milli 600))
        × ((group_ran outcomes group_d ≡ true)
            ⊎ Le n ((ceiling_for n outcomes signals pairing).value) (milli 880))
  unfolding coverage
  ceiling_for-range outcomes signals pairing =
      let held = value_le_covered outcomes signals pairing in
      let (most, bc, b_or_c, d) =
        covered_bounds (group_ran outcomes group_b) (group_ran outcomes group_c)
          (group_ran outcomes group_d) in
      (
        value_nonneg outcomes signals pairing,
        le_trans _ _ _ held (milli_mono _ 980 most),
        elim bc [ inl h ↦ inl h | inr h ↦ inr (le_trans _ _ _ held (milli_mono _ 750 h)) ],
        elim b_or_c [ inl h ↦ inl h | inr h ↦ inr (le_trans _ _ _ held (milli_mono _ 600 h)) ],
        elim d [ inl h ↦ inl h | inr h ↦ inr (le_trans _ _ _ held (milli_mono _ 880 h)) ],
      )
