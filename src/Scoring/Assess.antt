-- ===== src/Scoring/Assess.antt =====
-- packages/core/src/scoring/assess.ts: a run's signals, outcomes and draws into one assessment with
-- a confidence and a headline. A run with no dilution has `none`.
pub mod Ranges
pub mod Named
pub mod Headline
use verif_ai.Common.{
  ℕ, ◌+◌, ◌-◌, ◌*◌, Bool, true, false, ◌&&◌, ◌||◌, not, Option, none, some, List, [], ◌∷◌, filter,
  any, length, ltb, leb, ◌==◌, if◌then◌else◌,
}
use verif_ai.Types.Assessment.{
  IdentityFinding, matches_claim, same_vendor_cheaper, different_vendor, not_a_live_model,
  unresolved, identity_findings, adverse_identity_findings, is_adverse, identity_eq,
  ConsistencyFinding, uniform, fractional, undetermined, PlatformFinding, platform_findings,
  unplaced, TranslationFinding, translation_findings, untraced, EvidenceFinding, sufficient,
  budget_limited, obstructed, Assessment, Verdict,
}
use verif_ai.Types.Run.{
  Status, ran, skipped, SkipReason, endpoint_error, budget_exceeded, ProbeOutcome, DilutionRun,
}
use verif_ai.Types.Target.{Pairing}
use verif_ai.Scoring.Numbers.{Numbers, least}
use verif_ai.Scoring.Verdict.{Result, ok, throws, verdict_for, is_fractional, is_uniform}
use verif_ai.Scoring.Aggregate.{
  Signal, Llrs, Aggregate, aggregate, leaders_of, most_probable, vetoes_of,
}
use verif_ai.Scoring.Dispersion.{whole, Epsilon, epsilon_of, consistency_of, lost_share}
use verif_ai.Scoring.Ceiling.{applicable_outcomes, Ceiling, ceiling_for}

abbrev pub is_endpoint_error : ProbeOutcome → Bool
is_endpoint_error outcome = elim (outcome.status) [ skipped endpoint_error ↦ true | _ ↦ false ]

abbrev pub is_budget_exceeded : ProbeOutcome → Bool
is_budget_exceeded outcome = elim (outcome.status) [ skipped budget_exceeded ↦ true | _ ↦ false ]

-- `vetoes.has(finding)`
abbrev pub has : List IdentityFinding → IdentityFinding → Bool
has vetoes finding = any (identity_eq finding) vetoes

module _ (n : Numbers) where
  open n use {Num, le, add, sub, mul, div, milli, pow2_minus}

  pub record Scoring : Type 0 where
    pub signals : List (Signal n)
    pub outcomes : List ProbeOutcome
    pub dilution : Option DilutionRun
    pub pairing : Pairing

  pub record Posteriors : Type 0 where
    pub identity : IdentityFinding → Num
    pub consistency : ConsistencyFinding → Num
    pub platform : PlatformFinding → Num
    pub translation : TranslationFinding → Num

  pub record Scored : Type 0 where
    pub headline : Verdict
    pub assessment : Assessment
    pub confidence : Num
    pub ceiling : Ceiling n
    pub posteriors : Posteriors
    pub epsilon : Option (Epsilon n)

  unfoldable pub evidence_of : List ProbeOutcome → Option (Epsilon n) → EvidenceFinding
  unfolding applicable_outcomes lost_share
  evidence_of outcomes epsilon =
      let applicable = applicable_outcomes outcomes in
      let errors = length (filter is_endpoint_error applicable) in
      let erroring =
        ltb 0 (length applicable)
        && not (le (div (whole n errors) (whole n (length applicable))) (milli 100)) in
      if erroring || not (le (lost_share n epsilon) (milli 100))
      then obstructed
      else if any is_budget_exceeded outcomes
      then budget_limited
      else sufficient

  -- A record of the three findings, given by their numbers.
  abbrev pub per_finding : Num → Num → Num → ConsistencyFinding → Num
  per_finding u f k uniform = u
  per_finding u f k fractional = f
  per_finding u f k undetermined = k

  abbrev pub slack_of : Epsilon n → Num
  slack_of epsilon =
      if epsilon.disagreements == 0
      then epsilon.interval.1
      else sub (milli 1000) (epsilon.interval.0)

  abbrev pub minority_of : Epsilon n → ℕ
  minority_of epsilon =
      let others = epsilon.trials - epsilon.disagreements in
      if leb epsilon.disagreements others then epsilon.disagreements else others

  abbrev pub posterior_for : ConsistencyFinding → Epsilon n → ConsistencyFinding → Num
  posterior_for undetermined epsilon = per_finding (milli 0) (milli 0) (milli 1000)
  posterior_for uniform epsilon =
      per_finding (sub (milli 1000) (div (slack_of epsilon) (milli 2000)))
        (div (slack_of epsilon) (milli 2000)) (milli 0)
  posterior_for fractional epsilon =
      let share = sub (milli 1000) (pow2_minus (minority_of epsilon)) in
      per_finding (sub (milli 1000) share) share (milli 0)

  unfoldable pub consistency_posterior : Option (Epsilon n) → ConsistencyFinding → Num
  unfolding consistency_of
  consistency_posterior none = per_finding (milli 0) (milli 0) (milli 1000)
  consistency_posterior (some epsilon) = posterior_for (consistency_of n (some epsilon)) epsilon

  abbrev pub first_or : IdentityFinding → List IdentityFinding → IdentityFinding
  first_or fallback [] = fallback
  first_or fallback (finding ∷ findings) = finding

  unfoldable pub ruled_out : (IdentityFinding → Num) → List IdentityFinding → IdentityFinding
  unfolding leaders_of
  ruled_out posterior vetoes =
      let standing = filter (λ f. not (has vetoes f)) adverse_identity_findings in
      first_or unresolved (leaders_of n posterior standing)

  -- `[...].includes(finding)` of the findings that a mixture excludes.
  abbrev pub excluded_by : ConsistencyFinding → IdentityFinding → Bool
  excluded_by consistency finding = is_fractional consistency && identity_eq matches_claim finding

  unfoldable pub identity_of :
      (IdentityFinding → Num) → ConsistencyFinding → List IdentityFinding → IdentityFinding
  unfolding ruled_out most_probable
  identity_of posterior consistency vetoes =
      if has vetoes matches_claim
      then ruled_out posterior vetoes
      else most_probable n posterior identity_findings unresolved (excluded_by consistency)

  -- `reduce` over the adverse findings, from `total`.
  abbrev pub sum_over : (IdentityFinding → Num) → Num → List IdentityFinding → Num
  sum_over posterior total [] = total
  sum_over posterior total (finding ∷ findings) =
      sum_over posterior (add total (posterior finding)) findings

  unfoldable pub raw_confidence : Assessment → Posteriors → Bool → Num
  raw_confidence assessment posteriors claim_vetoed =
      let identity = posteriors.identity in
      if is_fractional assessment.consistency
      then posteriors.consistency fractional
      else if is_adverse assessment.identity
      then (if claim_vetoed
          then sub (milli 1000) (identity matches_claim)
          else sum_over identity (milli 0) adverse_identity_findings)
      else if identity_eq assessment.identity matches_claim
      then mul (identity matches_claim)
          (if is_uniform assessment.consistency then posteriors.consistency uniform else milli 1000)
      else identity unresolved

  abbrev pub epsilon_from : Option DilutionRun → Option (Epsilon n)
  epsilon_from none = none
  epsilon_from (some dilution) = some (epsilon_of n dilution)

  -- The posteriors of an assessment, from those that `aggregate` pooled.
  abbrev pub posteriors_with : Llrs n → Option (Epsilon n) → Posteriors
  posteriors_with pooled epsilon = record {
    identity = pooled.identity;
    consistency = consistency_posterior epsilon;
    platform = pooled.platform;
    translation = pooled.translation;
  }

  unfoldable pub assessment_of : Posteriors → Option (Epsilon n) → Scoring → Assessment
  unfolding consistency_of vetoes_of identity_of most_probable evidence_of
  assessment_of posteriors epsilon scoring = record {
    identity =
        identity_of posteriors.identity (consistency_of n epsilon) (vetoes_of n scoring.signals);
    consistency = consistency_of n epsilon;
    platform = most_probable n posteriors.platform platform_findings unplaced (λ _. false);
    translation = most_probable n posteriors.translation translation_findings untraced (λ _. false);
    evidence = evidence_of scoring.outcomes epsilon;
  }

  unfoldable pub confidence_of : Assessment → Posteriors → Scoring → Num
  unfolding raw_confidence vetoes_of ceiling_for
  confidence_of assessment posteriors scoring =
      least n
        (raw_confidence assessment posteriors (has (vetoes_of n scoring.signals) matches_claim))
        ((ceiling_for n scoring.outcomes scoring.signals scoring.pairing).value)

  -- The end of `assess`, once the headline is there or `verdictFor` has thrown.
  abbrev pub scored : Assessment → Posteriors → Scoring → Result Verdict → Result Scored
  scored assessment posteriors scoring (throws fault) = throws fault
  scored assessment posteriors scoring (ok headline) = ok (record {
    headline = headline;
    assessment = assessment;
    confidence = confidence_of assessment posteriors scoring;
    ceiling = ceiling_for n scoring.outcomes scoring.signals scoring.pairing;
    posteriors = posteriors;
    epsilon = epsilon_from scoring.dilution;
  })

  abbrev pub assess_pooled : Scoring → Result (Aggregate n) → Result Scored
  assess_pooled scoring (throws fault) = throws fault
  assess_pooled scoring (ok pooled) =
      let epsilon = epsilon_from scoring.dilution in
      let posteriors = posteriors_with pooled.posteriors epsilon in
      let assessment = assessment_of posteriors epsilon scoring in
      scored assessment posteriors scoring
        (verdict_for n assessment (confidence_of assessment posteriors scoring))

  unfoldable pub assess : Scoring → Result Scored
  unfolding aggregate assessment_of confidence_of verdict_for
  assess scoring = assess_pooled scoring (aggregate n scoring.signals scoring.pairing)
