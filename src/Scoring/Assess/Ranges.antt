-- ===== src/Scoring/Assess/Ranges.antt =====
-- The confidence of packages/core/src/scoring/assess.ts is a probability, held under the ceiling.
use verif_ai.Common.{
  filter, length, Bool, true, false, Option, none, some, List, [], ◌∷◌, arith, if◌then◌else◌, ◌==◌,
}
use mathlib.Core.Path.{subst}
use verif_ai.Types.Assessment.{
  IdentityFinding, matches_claim, unresolved, adverse_identity_findings, is_adverse, identity_eq,
  ConsistencyFinding, uniform, fractional, undetermined, Assessment,
}
use verif_ai.Types.Run.{DilutionRun}
use verif_ai.Scoring.Numbers.{Numbers, Le, IsUnit, least-le_right, le-least, Le-refl}
use verif_ai.Scoring.Verdict.{is_fractional, is_uniform}
use verif_ai.Scoring.Aggregate.{Llrs, vetoes_of, posteriors_of}
use verif_ai.Scoring.Aggregate.Posteriors.{posteriors_of-IsUnit}
use verif_ai.Scoring.Dispersion.{is_disagree, is_readable, is_lost, epsilon_of}
use verif_ai.Scoring.Dispersion.Bounds.{
  zero_IsUnit, one_IsUnit, complement_IsUnit, epsilon_interval-IsUnit, if_IsUnit,
}
use verif_ai.Scoring.Ceiling.{ceiling_for}
use verif_ai.Scoring.Ceiling.Range.{ceiling_for-range}
use verif_ai.Scoring.Assess.{
  Posteriors, Scoring, has, slack_of, posterior_for, consistency_posterior, sum_over,
  raw_confidence, epsilon_from, posteriors_with, confidence_of,
}

module _ (n : Numbers) where
  open n use {
    Num, le, add, sub, mul, div, milli, pow2_minus, le_trans, milli_mono, add_mono, zero-add,
    add-zero, sub_nonneg, mul_nonneg, div_nonneg, div_le_one, pow2_minus_nonneg, pow2_minus_le_one,
  }

  epsilon_of-interval_IsUnit :
      (run : DilutionRun)
      → IsUnit n ((epsilon_of n run).interval.0) × IsUnit n ((epsilon_of n run).interval.1)
  unfolding epsilon_of
  epsilon_of-interval_IsUnit run =
      epsilon_interval-IsUnit n (length (filter is_disagree (filter is_readable run.draws)))
        (length (filter is_readable run.draws)) (length (filter is_lost run.draws))

  slack_IsUnit : (run : DilutionRun) → IsUnit n (slack_of n (epsilon_of n run))
  slack_IsUnit run =
      let (low, high) = epsilon_of-interval_IsUnit run in
      if_IsUnit n ((epsilon_of n run).disagreements == 0) _ _ high (complement_IsUnit n _ low)

  half_of_IsUnit : (a : Num) → IsUnit n a → IsUnit n (div a (milli 2000))
  half_of_IsUnit a (low, high) = (
    div_nonneg a (milli 2000) low (milli_mono 1000 2000 (omega arith)),
    div_le_one a (milli 2000) (le_trans _ _ _ high (milli_mono 1000 2000 (omega arith)))
        (milli_mono 1000 2000 (omega arith)),
  )

  posterior_for-IsUnit :
      (finding : ConsistencyFinding) (run : DilutionRun) (c : ConsistencyFinding)
      → IsUnit n (posterior_for n finding (epsilon_of n run) c)
  posterior_for-IsUnit undetermined run uniform = zero_IsUnit n
  posterior_for-IsUnit undetermined run fractional = zero_IsUnit n
  posterior_for-IsUnit undetermined run undetermined = one_IsUnit n
  posterior_for-IsUnit uniform run uniform =
      complement_IsUnit n _ (half_of_IsUnit _ (slack_IsUnit run))
  posterior_for-IsUnit uniform run fractional = half_of_IsUnit _ (slack_IsUnit run)
  posterior_for-IsUnit uniform run undetermined = zero_IsUnit n
  posterior_for-IsUnit fractional run uniform =
      complement_IsUnit n _ (complement_IsUnit n _ (pow2_minus_nonneg _, pow2_minus_le_one _))
  posterior_for-IsUnit fractional run fractional =
      complement_IsUnit n _ (pow2_minus_nonneg _, pow2_minus_le_one _)
  posterior_for-IsUnit fractional run undetermined = zero_IsUnit n

  -- How far each reading of the consistency is believed is between 0 and 1, with a run of draws or
  -- without.
  pub consistency_posterior-IsUnit :
      (dilution : Option DilutionRun) (c : ConsistencyFinding)
      → IsUnit n (consistency_posterior n (epsilon_from n dilution) c)
  unfolding consistency_posterior
  consistency_posterior-IsUnit none uniform = zero_IsUnit n
  consistency_posterior-IsUnit none fractional = zero_IsUnit n
  consistency_posterior-IsUnit none undetermined = one_IsUnit n
  consistency_posterior-IsUnit (some run) c = posterior_for-IsUnit _ run c

  sum_over_nonneg :
      (posterior : IdentityFinding → Num) (total : Num) (fs : List IdentityFinding)
      → ((f : IdentityFinding) → Le n (milli 0) (posterior f))
      → Le n (milli 0) total
      → Le n (milli 0) (sum_over n posterior total fs)
  sum_over_nonneg posterior total [] h t = t
  sum_over_nonneg posterior total (f ∷ fs) h t =
      sum_over_nonneg posterior (add total (posterior f)) fs h (
        subst (λ u. Le n u (add total (posterior f))) (zero-add (milli 0))
          (add_mono (milli 0) total (milli 0) (posterior f) t (h f)))

  if_nonneg :
      (b : Bool) (x y : Num)
      → Le n (milli 0) x
      → Le n (milli 0) y
      → Le n (milli 0) (if b then x else y)
  if_nonneg true x y h k = h
  if_nonneg false x y h k = k

  raw_confidence_nonneg :
      (a : Assessment) (p : Posteriors n) (claim_vetoed : Bool)
      → ((f : IdentityFinding) → IsUnit n (p.identity f))
      → ((c : ConsistencyFinding) → IsUnit n (p.consistency c))
      → Le n (milli 0) (raw_confidence n a p claim_vetoed)
  unfolding raw_confidence
  raw_confidence_nonneg a p claim_vetoed identity consistency =
      if_nonneg (is_fractional a.consistency) _ _ ((consistency fractional).0) (
        if_nonneg (is_adverse a.identity) _ _
          (if_nonneg claim_vetoed _ _ (sub_nonneg _ _ ((identity matches_claim).1)) (
            sum_over_nonneg p.identity (milli 0) adverse_identity_findings (λ f. (identity f).0)
              (Le-refl n (milli 0))))
          (if_nonneg (identity_eq a.identity matches_claim) _ _
            (mul_nonneg _ _ ((identity matches_claim).0) (
              if_nonneg (is_uniform a.consistency) _ _ ((consistency uniform).0)
                (milli_mono 0 1000 (omega arith))))
            ((identity unresolved).0)))

  -- On the posteriors of any ratios and any draws, the confidence is between 0 and 1 and no more than
  -- the ceiling of the run.
  pub confidence_of-range :
      (a : Assessment) (llr : Llrs n) (s : Scoring n)
      → IsUnit n (
          confidence_of n a (posteriors_with n (posteriors_of n llr) (epsilon_from n s.dilution)) s)
        × Le n
            (confidence_of n a
              (posteriors_with n (posteriors_of n llr) (epsilon_from n s.dilution))
              s)
            ((ceiling_for n s.outcomes s.signals s.pairing).value)
  unfolding confidence_of
  confidence_of-range a llr s =
      let (low, high, _, _, _) = ceiling_for-range n s.outcomes s.signals s.pairing in
      let p = posteriors_with n (posteriors_of n llr) (epsilon_from n s.dilution) in
      let raw = raw_confidence n a p (has (vetoes_of n s.signals) matches_claim) in
      let held = least-le_right n raw ((ceiling_for n s.outcomes s.signals s.pairing).value) in
      (
        (
          le-least n raw ((ceiling_for n s.outcomes s.signals s.pairing).value) (milli 0)
              (raw_confidence_nonneg a p (has (vetoes_of n s.signals) matches_claim)
                (posteriors_of-IsUnit n llr).0 (consistency_posterior-IsUnit s.dilution))
              low,
          le_trans _ _ _ held (le_trans _ _ _ high (milli_mono 980 1000 (omega arith))),
        ),
        held,
      )
