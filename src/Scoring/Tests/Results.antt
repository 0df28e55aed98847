-- ===== src/Scoring/Tests/Results.antt =====
-- Ceiling and assessment at concrete inputs.
use verif_ai.Common.{◌≡◌, ◌≢◌, ◌↔◌, ◌⊎◌, refl, true, false, some, [], ◌∷◌, Elem, All}
use verif_ai.Common.Int.{◌-ℤ◌, pos}
use verif_ai.Types.Assessment.{matches_claim, uniform, fractional, obstructed}
use verif_ai.Types.Target.{native, cross_protocol}
use verif_ai.Types.Run.{group_b, group_c, group_d}
use verif_ai.Scoring.Numbers.{thousandths, Le, IsUnit, greatest}
use verif_ai.Scoring.Verdict.{type_error, throws}
use verif_ai.Scoring.Aggregate.{
  not_finite, or_zero, Signal, measured, vetoes_of, llrs_of, posteriors_of, greatest_of, leaders_of,
  most_probable,
}
use verif_ai.Scoring.Ceiling.{
  ceiling_for, group_ran, gap_share, groups_b_c_not_run, group_b_not_run, group_c_not_run,
  group_d_not_run, cross_protocol_pairing, probes_skipped, calibration_documented_only,
}
use verif_ai.Scoring.Ceiling.Range.{ceiling_for-range}
use verif_ai.Scoring.Ceiling.Reasons.{ceiling_for-reasons}
use verif_ai.Scoring.Assess.{assess, identity_of, has, confidence_of, posteriors_with, epsilon_from}
use verif_ai.Scoring.Assess.Named.{identity_of-matches_claim}
use verif_ai.Scoring.Assess.Ranges.{confidence_of-range}
use verif_ai.Scoring.Assess.Headline.{assess-pass, assess-fail}
use verif_ai.Scoring.Tests.Runs.{
  for_claim, guess, clean, all_ran, a_run, passed, a_run_passes, swapped_run, failed,
  swapped_run_fails,
}

ceiling_for-range_example :
    Le thousandths (pos 0) ((ceiling_for thousandths all_ran (guess ∷ []) cross_protocol).value)
    × Le thousandths ((ceiling_for thousandths all_ran (guess ∷ []) cross_protocol).value) (pos 980)
    × (((group_ran all_ran group_b ≡ true) × (group_ran all_ran group_c ≡ true))
        ⊎ Le thousandths
            ((ceiling_for thousandths all_ran (guess ∷ []) cross_protocol).value)
            (pos 750))
    × (((group_ran all_ran group_b ≡ true) ⊎ (group_ran all_ran group_c ≡ true))
        ⊎ Le thousandths
            ((ceiling_for thousandths all_ran (guess ∷ []) cross_protocol).value)
            (pos 600))
    × ((group_ran all_ran group_d ≡ true)
        ⊎ Le thousandths
            ((ceiling_for thousandths all_ran (guess ∷ []) cross_protocol).value)
            (pos 880))
ceiling_for-range_example = ceiling_for-range thousandths all_ran (guess ∷ []) cross_protocol

ceiling_for-reasons_example :
    Elem group_d_not_run ((ceiling_for thousandths [] (guess ∷ []) cross_protocol).reasons) ↔ (
      ((group_d_not_run ≡ groups_b_c_not_run)
        × (group_ran [] group_b ≡ false)
        × (group_ran [] group_c ≡ false))
      ⊎ ((group_d_not_run ≡ group_b_not_run)
          × (group_ran [] group_b ≡ false)
          × (group_ran [] group_c ≡ true))
      ⊎ ((group_d_not_run ≡ group_c_not_run)
          × (group_ran [] group_b ≡ true)
          × (group_ran [] group_c ≡ false))
      ⊎ ((group_d_not_run ≡ group_d_not_run) × (group_ran [] group_d ≡ false))
      ⊎ ((group_d_not_run ≡ cross_protocol_pairing) × (cross_protocol ≡ cross_protocol))
      ⊎ ((group_d_not_run ≡ probes_skipped) × (¬ Le thousandths (gap_share thousandths []) (pos 0)))
      ⊎ ((group_d_not_run ≡ calibration_documented_only)
          × All (λ (s : Signal thousandths). s.calibration ≢ measured) (guess ∷ [])))
ceiling_for-reasons_example =
    ceiling_for-reasons thousandths [] (guess ∷ []) cross_protocol group_d_not_run

favours_claim :
    identity_of thousandths (λ f. or_zero thousandths (for_claim f)) uniform [] ≡ matches_claim
unfolding identity_of most_probable leaders_of greatest_of greatest ◌-ℤ◌
favours_claim = refl

identity_of-matches_claim_example : (has [] matches_claim ≡ false) × (uniform ≢ fractional)
identity_of-matches_claim_example =
    identity_of-matches_claim thousandths (λ f. or_zero thousandths (for_claim f)) uniform []
      favours_claim

confidence_of-range_example :
    IsUnit thousandths (
      confidence_of thousandths clean
        (posteriors_with thousandths
          (posteriors_of thousandths (llrs_of thousandths a_run.signals native))
          (epsilon_from thousandths a_run.dilution))
        a_run)
    × Le thousandths
        (confidence_of thousandths clean
          (posteriors_with thousandths
            (posteriors_of thousandths (llrs_of thousandths a_run.signals native))
            (epsilon_from thousandths a_run.dilution))
          a_run)
        ((ceiling_for thousandths a_run.outcomes a_run.signals a_run.pairing).value)
confidence_of-range_example =
    confidence_of-range thousandths clean (llrs_of thousandths a_run.signals native) a_run

-- A ratio that is not finite stops the assessment.
abbrev unread : Signal thousandths
unread = record guess { platform = λ f. some not_finite }

unread_is_refused : assess thousandths (record a_run { signals = unread ∷ [] }) ≡ throws type_error
unfolding assess
unread_is_refused = refl

assess-pass_example :
    (has (vetoes_of thousandths a_run.signals) matches_claim ≡ false)
    × (passed.assessment.consistency ≡ uniform)
    × (passed.assessment.evidence ≢ obstructed)
    × Le thousandths (pos 800) passed.confidence
    × Le thousandths passed.confidence passed.ceiling.value
    × (group_ran a_run.outcomes group_b ≡ true)
    × (group_ran a_run.outcomes group_c ≡ true)
assess-pass_example = assess-pass thousandths a_run passed a_run_passes refl

assess-fail_example :
    (failed.assessment.identity ≢ matches_claim)
    × Le thousandths (pos 900) failed.confidence
    × Le thousandths failed.confidence failed.ceiling.value
    × (group_ran swapped_run.outcomes group_b ≡ true)
    × (group_ran swapped_run.outcomes group_c ≡ true)
    × (group_ran swapped_run.outcomes group_d ≡ true)
assess-fail_example = assess-fail thousandths swapped_run failed swapped_run_fails refl
