-- ===== src/Planner/Plan/Planned.antt =====
-- What `planProbes` of packages/core/src/planner/plan.ts promises of the plan that it returns.
use verif_ai.Common.{
  ℕ, ◌+◌, ◌≤◌, ◌≡◌, sym, ap, ◌∙◌, Option, none, some, List, ◌++◌, filter, length, All, String,
  arith,
}
use verif_ai.Types.Run.{SkippedProbe}
use verif_ai.Planner.Profiles.{
  profile_definition, ProfileDefinition, max_requests_limit, max_tokens_limit,
}
use verif_ai.Planner.Shuffle.Permutes.{total}
use verif_ai.Planner.Probe.{AnyProbe}
use verif_ai.Planner.Plan.{
  PlanOptions, ProbePlan, planned, Budget, Selection, is_eligible, select_from, ordered,
  empty_selection, plan_of, plan_checked, plan_probes, or_default,
}
use verif_ai.Planner.Plan.Selects.{
  cost_of, select_from-IsWithin, select_from-Spent, select_from-dealt,
}
use verif_ai.Planner.Plan.Order.{IsOther, IsDilution, ordered_lem}

planned_inj : (p q : ProbePlan) → planned p ≡ planned q → p ≡ q
planned_inj p q h = ground arith

module _ (options : PlanOptions) (plan : ProbePlan) where
  abbrev definition : ProfileDefinition
  definition = profile_definition options.profile

  abbrev first_budget : ℕ → ℕ → Budget
  first_budget max_requests max_tokens = record {
    max_requests = max_requests;
    max_tokens = max_tokens;
    requests = 0;
    tokens = 0;
  }

  abbrev selected : ℕ → ℕ → Budget × Selection
  selected max_requests max_tokens =
      select_from options options.catalogue (first_budget max_requests max_tokens) empty_selection

  -- The plan is what the loop left, in order.
  abbrev Made : ℕ → Budget × Selection → Option (List AnyProbe) → Type 0
  Made spread_ms r probes =
      (probes ≡ some plan.probes)
      × (plan.skips ≡ r.1.skips)
      × (plan.requests ≡ r.0.requests)
      × (plan.tokens ≡ r.0.tokens)
      × (plan.max_requests ≡ r.0.max_requests)
      × (plan.max_tokens ≡ r.0.max_tokens)

  plan_of-planned :
      (spread_ms : ℕ) (r : Budget × Selection) (probes : Option (List AnyProbe))
      → plan_of options definition spread_ms r probes ≡ planned plan
      → Made spread_ms r probes
  plan_of-planned spread_ms r none h = absurd (ground arith)
  plan_of-planned spread_ms r (some probes) h =
      let same = planned_inj _ plan h in
      (
        ap some (ap (λ (p : ProbePlan). p.probes) same),
        sym (ap (λ (p : ProbePlan). p.skips) same),
        sym (ap (λ (p : ProbePlan). p.requests) same),
        sym (ap (λ (p : ProbePlan). p.tokens) same),
        sym (ap (λ (p : ProbePlan). p.max_requests) same),
        sym (ap (λ (p : ProbePlan). p.max_tokens) same),
      )

  plan_checked-planned :
      (max_requests max_tokens spread_ms : ℕ)
      → plan_checked options max_requests max_tokens spread_ms ≡ planned plan
      → Made spread_ms (selected max_requests max_tokens) (
          ordered
            ((selected max_requests max_tokens).1.admitted)
            definition.shuffle
            options.order_seed)
  unfolding plan_checked
  plan_checked-planned max_requests max_tokens spread_ms h =
      plan_of-planned spread_ms (selected max_requests max_tokens)
        (ordered ((selected max_requests max_tokens).1.admitted) definition.shuffle
          options.order_seed)
        h

  abbrev max_requests_of : ℕ
  max_requests_of = or_default options.max_requests definition.max_requests

  abbrev max_tokens_of : ℕ
  max_tokens_of = or_default options.max_tokens definition.max_tokens

  abbrev spread_ms_of : ℕ
  spread_ms_of = or_default options.spread_ms definition.spread_ms

  plan_probes-checked :
      plan_probes options ≡ planned plan
      → (plan_checked options max_requests_of max_tokens_of spread_ms_of ≡ planned plan)
        × (max_requests_of ≤ max_requests_limit)
        × (max_tokens_of ≤ max_tokens_limit)
  unfolding plan_probes
  plan_probes-checked h = ground arith

  made :
      plan_probes options ≡ planned plan
      → Made spread_ms_of (selected max_requests_of max_tokens_of) (
          ordered
            ((selected max_requests_of max_tokens_of).1.admitted)
            definition.shuffle
            options.order_seed)
  made h =
      plan_checked-planned max_requests_of max_tokens_of spread_ms_of ((plan_probes-checked h).0)

  in_order :
      (h : plan_probes options ≡ planned plan)
      → ((front last : List AnyProbe) × (plan.probes ≡ front ++ last)
          × All IsOther front
          × All IsDilution last
          × (length last ≤ 1))
        × ((weight : AnyProbe → ℕ)
            → total weight plan.probes
              ≡ total weight ((selected max_requests_of max_tokens_of).1.admitted))
  in_order h = ordered_lem _ definition.shuffle options.order_seed plan.probes ((made h).0)

  -- A plan stays within its budget: its requests and tokens are what its probes may cost at most,
  -- neither exceeds the plan's limit, and the limits are those given, or the profile's, and at most
  -- 2000 requests and 2,000,000 tokens.
  pub plan_probes-IsWithin :
      plan_probes options ≡ planned plan
      → (plan.requests ≤ plan.max_requests)
        × (plan.tokens ≤ plan.max_tokens)
        × (plan.requests ≡ total (λ p. (cost_of options p).requests) plan.probes)
        × (plan.tokens ≡ total (λ p. (cost_of options p).tokens) plan.probes)
        × (plan.max_requests ≡ or_default options.max_requests definition.max_requests)
        × (plan.max_tokens ≡ or_default options.max_tokens definition.max_tokens)
        × (plan.max_requests ≤ 2000)
        × (plan.max_tokens ≤ 2000000)
  plan_probes-IsWithin h =
      let (_, _, requests, tokens, most_requests, most_tokens) = made h in
      let (_, low, high) = plan_probes-checked h in
      let budget = first_budget max_requests_of max_tokens_of in
      let (within, limits) =
        select_from-IsWithin options options.catalogue budget empty_selection
          (omega arith, omega arith) in
      let (spent_requests, spent_tokens) =
        select_from-Spent options options.catalogue budget empty_selection in
      let (_, weighs) = in_order h in
      let weigh_requests = weighs (λ p. (cost_of options p).requests) in
      let weigh_tokens = weighs (λ p. (cost_of options p).tokens) in
      (
        omega arith,
        omega arith,
        omega arith,
        omega arith,
        most_requests ∙ limits.0,
        most_tokens ∙ limits.1,
        omega arith,
        omega arith,
      )

  -- A plan deals with every probe of the catalogue that the profile runs and that applies to the
  -- target, once, and with no other: by any weight of the ids, the probes to run and those skipped
  -- weigh together what the eligible part of the catalogue weighs.
  pub plan_probes_complete :
      (weight : String → ℕ)
      → plan_probes options ≡ planned plan
      → total (λ (p : AnyProbe). weight p.id) plan.probes
          + total (λ (s : SkippedProbe). weight s.probe_id) plan.skips
        ≡ total (λ (p : AnyProbe). weight p.id) (filter (is_eligible options) options.catalogue)
  plan_probes_complete weight h =
      let (_, skips, _, _, _, _) = made h in
      let (_, weighs) = in_order h in
      let skipped_weigh = ap (total (λ (s : SkippedProbe). weight s.probe_id)) skips in
      let probes_weigh = weighs (λ (p : AnyProbe). weight p.id) in
      let all_dealt =
        select_from-dealt options weight options.catalogue
          (first_budget max_requests_of max_tokens_of) empty_selection in
      omega arith

  -- The order of a plan: probes of other groups first, then at most one of group F.
  pub plan_probes-ordered :
      plan_probes options ≡ planned plan
      → (front last : List AnyProbe) × (plan.probes ≡ front ++ last)
        × All IsOther front
        × All IsDilution last
        × (length last ≤ 1)
  plan_probes-ordered h = (in_order h).0
