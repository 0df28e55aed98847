-- ===== src/Planner/Tests.antt =====
-- Runs of packages/core/src/planner at concrete inputs.
use verif_ai.Common.{
  some, if◌then◌else◌, ℕ, ◌+◌, ◌≤◌, ◌≡◌, refl, true, false, none, List, [], ◌∷◌, ◌++◌, filter,
  length, All, String, codes,
}
use verif_ai.Types.Run.{
  ProbeGroup, group_a, group_b, group_c, group_d, group_f, SkippedProbe, needs_api_key,
  budget_exceeded, skipped, SkipReason, ProbeOutcome,
}
use verif_ai.Types.Target.{anthropic, anthropic_messages, native}
use verif_ai.Planner.Profiles.{paranoid, profile_definition}
use verif_ai.Planner.Shuffle.{fnv1a, mulberry32, swap, shuffle_from, seeded_shuffle}
use verif_ai.Planner.Shuffle.Permutes.{total, total-seeded_shuffle}
use verif_ai.Planner.Probe.{AnyProbe, probe_cost, applies, string_eq}
use verif_ai.Planner.Plan.{
  PlanOptions, ProbePlan, planned, blocked_by, consider, select_from, ordered, plan_checked,
  plan_probes, is_eligible, or_default,
}
use verif_ai.Planner.Plan.Selects.{cost_of}
use verif_ai.Planner.Plan.Order.{IsOther, IsDilution}
use verif_ai.Planner.Plan.Planned.{plan_probes-IsWithin, plan_probes_complete, plan_probes-ordered}

abbrev probe : String → ProbeGroup → AnyProbe
probe id group = record {
  id = id;
  group = group;
  protocols = anthropic_messages ∷ [];
  vendors = anthropic ∷ [];
  applies_to = none;
  needs_key = false;
  opt_in = false;
  cost = record { requests = 2; tokens = 100 };
}

abbrev with_key : AnyProbe
with_key = record (probe "b-key" group_b) { needs_key = true }

abbrev dear : AnyProbe
dear = record (probe "d-dear" group_d) { cost = record { requests = 900; tokens = 0 } }

abbrev options : PlanOptions
options = record {
  target = record {
    protocol = anthropic_messages;
    claimed_vendor = anthropic;
    claimed_model = "m";
    requested_model = "m";
    pairing = native;
  };
  profile = paranoid;
  has_key = false;
  catalogue =
      probe "f1" group_f
      ∷ probe "a1" group_a
      ∷ with_key
      ∷ probe "b1" group_b
      ∷ dear
      ∷ probe "c1" group_c
      ∷ [];
  max_requests = none;
  max_tokens = none;
  spread_ms = none;
  opted_in = [];
  dilution_supported = true;
  order_seed = codes "abcdefgh";
}

abbrev skipped_for : String → ProbeGroup → SkipReason → ProbeOutcome
skipped_for id group reason = record { probe_id = id; group = group; status = skipped reason }

abbrev the_plan : ProbePlan
the_plan = record {
  profile = paranoid;
  probes = probe "b1" group_b ∷ probe "a1" group_a ∷ probe "c1" group_c ∷ probe "f1" group_f ∷ [];
  skips =
      record { probe_id = "b-key"; reason = needs_api_key }
      ∷ record { probe_id = "d-dear"; reason = budget_exceeded }
      ∷ [];
  outcomes =
      skipped_for "b-key" group_b needs_api_key ∷ skipped_for "d-dear" group_d budget_exceeded ∷ [];
  requests = 74;
  tokens = 3700;
  max_requests = 600;
  max_tokens = 250000;
  draws = 30;
  spread_ms = 600000;
  order_seed = codes "abcdefgh";
  shuffled = true;
  budget_limited = true;
  dilution_unsupported = false;
}

options_plan : plan_probes options ≡ planned the_plan
unfolding plan_probes plan_checked ordered select_from consider blocked_by probe_cost applies
    seeded_shuffle shuffle_from swap mulberry32 fnv1a profile_definition
options_plan = refl

-- One for the probe b1.
abbrev counts_b1 : String → ℕ
counts_b1 id = if string_eq id "b1" then 1 else 0

plan_probes-IsWithin_example :
    (the_plan.requests ≤ the_plan.max_requests)
    × (the_plan.tokens ≤ the_plan.max_tokens)
    × (the_plan.requests ≡ total (λ p. (cost_of options p).requests) the_plan.probes)
    × (the_plan.tokens ≡ total (λ p. (cost_of options p).tokens) the_plan.probes)
    × (the_plan.max_requests ≡ or_default none ((profile_definition paranoid).max_requests))
    × (the_plan.max_tokens ≡ or_default none ((profile_definition paranoid).max_tokens))
    × (the_plan.max_requests ≤ 2000)
    × (the_plan.max_tokens ≤ 2000000)
plan_probes-IsWithin_example = plan_probes-IsWithin options the_plan options_plan

plan_probes_complete_example :
    total (λ (p : AnyProbe). counts_b1 p.id) the_plan.probes
      + total (λ (s : SkippedProbe). counts_b1 s.probe_id) the_plan.skips
    ≡ total (λ (p : AnyProbe). counts_b1 p.id) (filter (is_eligible options) options.catalogue)
plan_probes_complete_example = plan_probes_complete options the_plan counts_b1 options_plan

plan_probes-ordered_example :
    (front last : List AnyProbe) × (the_plan.probes ≡ front ++ last)
    × All IsOther front
    × All IsDilution last
    × (length last ≤ 1)
plan_probes-ordered_example = plan_probes-ordered options the_plan options_plan

total-seeded_shuffle_example :
    (shuffled : List ℕ) × (seeded_shuffle (1 ∷ 2 ∷ 4 ∷ 8 ∷ []) (codes "abcdefgh") ≡ some shuffled)
    × (total (λ k. k) shuffled ≡ 15)
    × (length shuffled ≡ 4)
total-seeded_shuffle_example = total-seeded_shuffle (λ k. k) (1 ∷ 2 ∷ 4 ∷ 8 ∷ []) (codes "abcdefgh")
