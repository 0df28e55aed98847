-- ===== src/Scoring/Tests/Runs.antt =====
-- Two runs, one that passes and one that fails, with what they are scored on.
use verif_ai.Common.{◌≡◌, refl, Option, none, some, List, [], ◌∷◌, map, replicate}
use verif_ai.Common.Int.{◌+ℤ◌, ◌-ℤ◌, ℤ, pos}
use verif_ai.Types.Assessment.{
  IdentityFinding, matches_claim, different_vendor, uniform, first_party, unplaced, direct,
  untraced, sufficient, Assessment, pass, fail,
}
use verif_ai.Types.Target.{native}
use verif_ai.Types.Run.{
  DrawOutcome, agree, disagree, DrawRecord, reference, DilutionRun, ProbeOutcome, ProbeGroup,
  group_a, group_b, group_c, group_d, ran,
}
use verif_ai.Scoring.Numbers.{thousandths, least, greatest, clamp}
use verif_ai.Scoring.Verdict.{ok, verdict_for}
use verif_ai.Scoring.Aggregate.{
  Ratio, finite, Signal, causal_capability, behavioral, measured, heuristic, by_family, axis_llr,
  family_llr, vetoes_of, vetoed, llrs_of, posteriors_of, greatest_of, sum_from, family_sums,
  sum_families, hold, paired, posterior_of, leaders_of, most_probable, aggregate,
}
use verif_ai.Scoring.Dispersion.{
  epsilon_interval, epsilon_of, consistency_of, exact_upper, lost_share, runs_in,
  few_runs_probability,
}
use verif_ai.Scoring.Ceiling.{ceiling_for, coverage, group_ran, gap_share, applicable_outcomes}
use verif_ai.Scoring.Assess.{
  Scoring, Scored, assess, identity_of, confidence_of, posteriors_with, epsilon_from, evidence_of,
  consistency_posterior, ruled_out, raw_confidence, assessment_of,
}

abbrev pub nothing_said : {F : Type 0} → F → Option (Ratio ℤ)
nothing_said finding = none

-- A measured signal that speaks for the claimed model, and a guess that rules it out.
abbrev pub for_claim : IdentityFinding → Option (Ratio ℤ)
for_claim matches_claim = some (finite (pos 3000))
for_claim finding = none

abbrev pub recorded : Signal thousandths
recorded = record {
  probe_id = "c1";
  signal_id = "level";
  family = causal_capability;
  calibration = measured;
  identity = for_claim;
  platform = nothing_said;
  translation = nothing_said;
  citations = "docs" ∷ [];
  vetoes = [];
}

abbrev pub guess : Signal thousandths
guess = record recorded {
  calibration = heuristic;
  family = behavioral;
  vetoes = matches_claim ∷ [];
}

abbrev pub clean : Assessment
clean = record {
  identity = matches_claim;
  consistency = uniform;
  platform = first_party;
  translation = direct;
  evidence = sufficient;
}

abbrev pub drawn : DrawOutcome → DrawRecord
drawn outcome = record { draw = 0; outcome = outcome }

abbrev pub agreeing : DilutionRun
agreeing = record {
  probe_id = "f1";
  basis = reference;
  requests_per_draw = 1;
  draws = map drawn (replicate 30 agree);
  readings = [];
  planned = 30;
  spread_ms = 0;
}

abbrev pub disagreeing : DilutionRun
disagreeing = record agreeing { draws = drawn disagree ∷ agreeing.draws }

abbrev pub finished : ProbeGroup → ProbeOutcome
finished group = record { probe_id = "p"; group = group; status = ran }

abbrev pub all_ran : List ProbeOutcome
all_ran = map finished (group_a ∷ group_b ∷ group_c ∷ group_d ∷ [])

abbrev pub a_run : Scoring thousandths
a_run = record {
  signals = recorded ∷ [];
  outcomes = all_ran;
  dilution = some agreeing;
  pairing = native;
}

abbrev pub passed : Scored thousandths
passed = record {
  headline = pass;
  assessment = record clean { platform = unplaced; translation = untraced };
  confidence = pos 912;
  ceiling = ceiling_for thousandths all_ran a_run.signals native;
  posteriors =
      posteriors_with thousandths
        (posteriors_of thousandths (llrs_of thousandths a_run.signals native))
        (epsilon_from thousandths (some agreeing));
  epsilon = epsilon_from thousandths (some agreeing);
}

pub a_run_passes : assess thousandths a_run ≡ ok passed
unfolding assess least greatest clamp greatest_of sum_from family_sums family_llr sum_families
    axis_llr by_family hold vetoes_of vetoed paired llrs_of posterior_of posteriors_of leaders_of
    most_probable applicable_outcomes group_ran coverage gap_share ceiling_for exact_upper
    epsilon_interval epsilon_of consistency_of lost_share evidence_of consistency_posterior
    ruled_out identity_of raw_confidence assessment_of confidence_of verdict_for aggregate runs_in
    few_runs_probability ◌+ℤ◌ ◌-ℤ◌
a_run_passes = refl

abbrev pub for_another : IdentityFinding → Option (Ratio ℤ)
for_another different_vendor = some (finite (pos 3000))
for_another finding = none

abbrev pub against : Signal thousandths
against = record recorded { identity = for_another; vetoes = matches_claim ∷ [] }

abbrev pub swapped_run : Scoring thousandths
swapped_run = record a_run { signals = against ∷ [] }

abbrev pub failed : Scored thousandths
failed = record passed {
  headline = fail;
  assessment = record clean {
    identity = different_vendor;
    platform = unplaced;
    translation = untraced;
  };
  confidence = pos 980;
  posteriors =
      posteriors_with thousandths
        (posteriors_of thousandths (llrs_of thousandths swapped_run.signals native))
        (epsilon_from thousandths (some agreeing));
}

pub swapped_run_fails : assess thousandths swapped_run ≡ ok failed
unfolding assess least greatest clamp greatest_of sum_from family_sums family_llr sum_families
    axis_llr by_family hold vetoes_of vetoed paired llrs_of posterior_of posteriors_of leaders_of
    most_probable applicable_outcomes group_ran coverage gap_share ceiling_for exact_upper
    epsilon_interval epsilon_of consistency_of lost_share evidence_of consistency_posterior
    ruled_out identity_of raw_confidence assessment_of confidence_of verdict_for aggregate runs_in
    few_runs_probability ◌+ℤ◌ ◌-ℤ◌
swapped_run_fails = refl
