-- ===== src/Scoring/Tests/Evidence.antt =====
-- Verdict, aggregate and dispersion at concrete inputs.
use verif_ai.Common.{◌≤◌, ◌<◌, ◌≡◌, ◌≢◌, ◌↔◌, ◌⊎◌, true, false, some, [], ◌∷◌, filter, length}
use verif_ai.Common.Int.{pos}
use verif_ai.Types.Assessment.{
  IdentityFinding, matches_claim, uniform, fractional, undetermined, PlatformFinding,
  TranslationFinding, obstructed, pass, fail, is_adverse,
}
use verif_ai.Types.Target.{native}
use verif_ai.Types.Run.{agree, disagree}
use verif_ai.Scoring.Numbers.{thousandths, Le, IsUnit}
use verif_ai.Scoring.Verdict.{range_error, type_error, ok, throws, verdict_for, verdict_for_iff}
use verif_ai.Scoring.Aggregate.{
  Signal, by_family, axis_llr, veto_limit, vetoes_of, vetoed, llrs_of, posteriors_of,
}
use verif_ai.Scoring.Aggregate.Caps.{floor_of, ceiling_of, axis_llr_bounds}
use verif_ai.Scoring.Aggregate.Vetoes.{names, vetoed_lem}
use verif_ai.Scoring.Aggregate.Posteriors.{posteriors_of-IsUnit}
use verif_ai.Scoring.Dispersion.{is_readable, epsilon_interval, epsilon_of, consistency_of}
use verif_ai.Scoring.Dispersion.Bounds.{epsilon_interval-IsUnit}
use verif_ai.Scoring.Dispersion.Readable.{Shows, consistency_of-epsilon_of}
use verif_ai.Scoring.Tests.Runs.{recorded, guess, clean, disagreeing}

verdict_for_iff_example :
    ((verdict_for thousandths clean (pos 912) ≡ ok pass) ↔ (
      (clean.identity ≡ matches_claim)
      × (clean.consistency ≡ uniform)
      × (clean.evidence ≢ obstructed)
      × (thousandths.le (pos 800) (pos 912) ≡ true)
      × IsUnit thousandths (pos 912)))
    × ((verdict_for thousandths clean (pos 912) ≡ ok fail) ↔ (
        ((is_adverse clean.identity ≡ true)
          ⊎ ((clean.consistency ≡ fractional) × (clean.identity ≢ matches_claim)))
        × (thousandths.le (pos 900) (pos 912) ≡ true)
        × IsUnit thousandths (pos 912)))
    × ((verdict_for thousandths clean (pos 912) ≡ throws range_error)
        ↔ (¬ IsUnit thousandths (pos 912)))
    × ((verdict_for thousandths clean (pos 912) ≡ throws type_error) ↔ (
        (clean.consistency ≡ fractional)
        × (clean.identity ≡ matches_claim)
        × IsUnit thousandths (pos 912)))
verdict_for_iff_example = verdict_for_iff thousandths clean (pos 912)

axis_llr_bounds_example :
    Le thousandths (floor_of thousandths (pos 0) (by_family thousandths (recorded ∷ guess ∷ []))) (
      axis_llr thousandths
        (by_family thousandths (recorded ∷ guess ∷ []))
        (λ (s : Signal thousandths). s.identity)
        matches_claim)
    × Le thousandths
        (axis_llr thousandths
          (by_family thousandths (recorded ∷ guess ∷ []))
          (λ (s : Signal thousandths). s.identity)
          matches_claim)
        (ceiling_of thousandths (pos 0) (by_family thousandths (recorded ∷ guess ∷ [])))
axis_llr_bounds_example =
    axis_llr_bounds thousandths (recorded ∷ guess ∷ []) (λ (s : Signal thousandths). s.identity)
      matches_claim

vetoed_lem_example :
    Le thousandths
      (vetoed thousandths (λ f. pos 3000) (recorded ∷ guess ∷ []) matches_claim)
      (pos 3000)
    × (((names matches_claim (vetoes_of thousandths (recorded ∷ guess ∷ [])) ≡ true)
          × Le thousandths
              (vetoed thousandths (λ f. pos 3000) (recorded ∷ guess ∷ []) matches_claim)
              (thousandths.minus_milli veto_limit))
        ⊎ ((names matches_claim (vetoes_of thousandths (recorded ∷ guess ∷ [])) ≡ false)
            × (vetoed thousandths (λ f. pos 3000) (recorded ∷ guess ∷ []) matches_claim
                ≡ pos 3000)))
vetoed_lem_example = vetoed_lem thousandths (λ f. pos 3000) (recorded ∷ guess ∷ []) matches_claim

posteriors_of-IsUnit_example :
    ((g : IdentityFinding)
      → IsUnit thousandths
          ((posteriors_of thousandths (llrs_of thousandths (recorded ∷ []) native)).identity g))
    × ((g : PlatformFinding)
        → IsUnit thousandths
            ((posteriors_of thousandths (llrs_of thousandths (recorded ∷ []) native)).platform g))
    × ((g : TranslationFinding)
        → IsUnit thousandths (
            (posteriors_of thousandths (llrs_of thousandths (recorded ∷ []) native)).translation g))
posteriors_of-IsUnit_example =
    posteriors_of-IsUnit thousandths (llrs_of thousandths (recorded ∷ []) native)

epsilon_interval-IsUnit_example :
    IsUnit thousandths ((epsilon_interval thousandths 2 9 1).0)
    × IsUnit thousandths ((epsilon_interval thousandths 2 9 1).1)
epsilon_interval-IsUnit_example = epsilon_interval-IsUnit thousandths 2 9 1

consistency_of-epsilon_of_example :
    ((consistency_of thousandths (some (epsilon_of thousandths disagreeing)) ≡ undetermined)
      ↔ (length (filter is_readable disagreeing.draws) < 5))
    × ((consistency_of thousandths (some (epsilon_of thousandths disagreeing)) ≡ fractional) ↔ (
        (5 ≤ length (filter is_readable disagreeing.draws))
        × Shows agree disagreeing.draws
        × Shows disagree disagreeing.draws))
consistency_of-epsilon_of_example = consistency_of-epsilon_of thousandths disagreeing
