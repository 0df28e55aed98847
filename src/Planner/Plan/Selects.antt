-- ===== src/Planner/Plan/Selects.antt =====
-- What the loop of `planProbes` in packages/core/src/planner/plan.ts keeps.
use verif_ai.Common.{
  ℕ, ◌+◌, ◌≤◌, ◌≡◌, refl, ◌∙◌, Bool, true, false, Option, none, some, List, [], ◌∷◌, ◌++◌, filter,
  String, arith, Bool-cases, inl, inr, if◌then◌else◌,
}
use verif_ai.Types.Run.{SkipReason, SkippedProbe, budget_exceeded}
use verif_ai.Planner.Profiles.{profile_definition}
use verif_ai.Planner.Shuffle.Permutes.{total}
use verif_ai.Planner.Probe.{ProbeCost, AnyProbe, probe_cost}
use verif_ai.Planner.Plan.{
  PlanOptions, Budget, Selection, blocked_by, fits, considered, consider, offer, is_eligible,
  select_from,
}

-- What was spent is within the limits.
abbrev pub IsWithin : Budget → Type 0
IsWithin b = (b.requests ≤ b.max_requests) × (b.tokens ≤ b.max_tokens)

abbrev SameLimits : Budget → Budget → Type 0
SameLimits b b' = (b'.max_requests ≡ b.max_requests) × (b'.max_tokens ≡ b.max_tokens)

pub total-append :
    {A : Type 0} (weight : A → ℕ) (xs ys : List A)
    → total weight (xs ++ ys) ≡ total weight xs + total weight ys
total-append weight [] ys = omega arith
total-append weight (x ∷ xs) ys = omega (arith, total-append weight xs ys)

module _ (options : PlanOptions) where
  abbrev pub cost_of : AnyProbe → ProbeCost
  cost_of probe = probe_cost probe ((profile_definition options.profile).draws)

  -- The limits stay, and what is spent stays within them.
  considered-IsWithin :
      (probe : AnyProbe) (b : Budget) (s : Selection) (o : Option SkipReason)
      → IsWithin b
      → IsWithin ((considered options probe b s o).0)
        × SameLimits b ((considered options probe b s o).0)
  considered-IsWithin probe b s (some reason) h = (h, (refl, refl))
  considered-IsWithin probe b s none h = elim (Bool-cases (fits (cost_of probe) b)) [
    | inl e ↦ rw e (ground arith, (refl, refl))
    | inr e ↦ rw e (h, (refl, refl))
  ]

  consider-IsWithin :
      (probe : AnyProbe) (b : Budget) (s : Selection)
      → IsWithin b
      → IsWithin ((consider options probe b s).0) × SameLimits b ((consider options probe b s).0)
  unfolding consider
  consider-IsWithin probe b s h = considered-IsWithin probe b s (blocked_by probe options) h

  offer-IsWithin :
      (probe : AnyProbe) (b : Budget) (s : Selection) (eligible : Bool)
      → IsWithin b
      → IsWithin ((offer options probe b s eligible).0)
        × SameLimits b ((offer options probe b s eligible).0)
  offer-IsWithin probe b s true h = consider-IsWithin probe b s h
  offer-IsWithin probe b s false h = (h, (refl, refl))

  pub select_from-IsWithin :
      (probes : List AnyProbe) (b : Budget) (s : Selection)
      → IsWithin b
      → IsWithin ((select_from options probes b s).0)
        × SameLimits b ((select_from options probes b s).0)
  unfolding select_from
  select_from-IsWithin [] b s h = (h, (refl, refl))
  select_from-IsWithin (probe ∷ probes) b s h =
      let next = offer options probe b s (is_eligible options probe) in
      let (kept, same) = offer-IsWithin probe b s (is_eligible options probe) h in
      let (last, limits) = select_from-IsWithin probes (next.0) (next.1) kept in
      (last, (limits.0 ∙ same.0, limits.1 ∙ same.1))

  abbrev requests_of : AnyProbe → ℕ
  requests_of probe = (cost_of probe).requests

  abbrev tokens_of : AnyProbe → ℕ
  tokens_of probe = (cost_of probe).tokens

  -- What the budget has counted since `b` is the cost of what has been admitted since `s`.
  abbrev pub Spent : Budget → Selection → Budget × Selection → Type 0
  Spent b s r =
      (r.0.requests + total requests_of s.admitted ≡ b.requests + total requests_of r.1.admitted)
      × (r.0.tokens + total tokens_of s.admitted ≡ b.tokens + total tokens_of r.1.admitted)

  considered-Spent :
      (probe : AnyProbe) (b : Budget) (s : Selection) (o : Option SkipReason)
      → Spent b s (considered options probe b s o)
  considered-Spent probe b s (some reason) = (refl, refl)
  considered-Spent probe b s none = elim (Bool-cases (fits (cost_of probe) b)) [
    | inl e ↦ rw e (
      omega (arith, total-append requests_of s.admitted (probe ∷ [])),
      omega (arith, total-append tokens_of s.admitted (probe ∷ [])),
    )
    | inr e ↦ rw e (refl, refl)
  ]

  consider-Spent :
      (probe : AnyProbe) (b : Budget) (s : Selection) → Spent b s (consider options probe b s)
  unfolding consider
  consider-Spent probe b s = considered-Spent probe b s (blocked_by probe options)

  offer-Spent :
      (probe : AnyProbe) (b : Budget) (s : Selection) (eligible : Bool)
      → Spent b s (offer options probe b s eligible)
  offer-Spent probe b s true = consider-Spent probe b s
  offer-Spent probe b s false = (refl, refl)

  pub select_from-Spent :
      (probes : List AnyProbe) (b : Budget) (s : Selection)
      → Spent b s (select_from options probes b s)
  unfolding select_from
  select_from-Spent [] b s = (refl, refl)
  select_from-Spent (probe ∷ probes) b s =
      let next = offer options probe b s (is_eligible options probe) in
      let (requests, tokens) = offer-Spent probe b s (is_eligible options probe) in
      let (requests', tokens') = select_from-Spent probes (next.0) (next.1) in
      (omega arith, omega arith)

  module _ (weight : String → ℕ) where
    abbrev pub of_probe : AnyProbe → ℕ
    of_probe probe = weight probe.id

    abbrev pub of_skip : SkippedProbe → ℕ
    of_skip skipped_probe = weight skipped_probe.probe_id

    -- What a selection has dealt with, by the ids.
    abbrev pub dealt : Selection → ℕ
    dealt s = total of_probe s.admitted + total of_skip s.skips

    considered-dealt :
        (probe : AnyProbe) (b : Budget) (s : Selection) (o : Option SkipReason)
        → dealt ((considered options probe b s o).1) ≡ dealt s + of_probe probe
    considered-dealt probe b s (some reason) =
        omega (
          arith,
          total-append of_skip s.skips (record { probe_id = probe.id; reason = reason } ∷ []),
        )
    considered-dealt probe b s none = elim (Bool-cases (fits (cost_of probe) b)) [
      | inl e ↦ rw e (omega (arith, total-append of_probe s.admitted (probe ∷ [])))
      | inr e ↦ rw e (
          omega (
            arith,
            total-append of_skip s.skips
                (record { probe_id = probe.id; reason = budget_exceeded } ∷ []),
          ))
    ]

    consider-dealt :
        (probe : AnyProbe) (b : Budget) (s : Selection)
        → dealt ((consider options probe b s).1) ≡ dealt s + of_probe probe
    unfolding consider
    consider-dealt probe b s = considered-dealt probe b s (blocked_by probe options)

    abbrev weight_if : Bool → AnyProbe → ℕ
    weight_if eligible probe = if eligible then of_probe probe else 0

    offer-dealt :
        (probe : AnyProbe) (b : Budget) (s : Selection) (eligible : Bool)
        → dealt ((offer options probe b s eligible).1) ≡ dealt s + weight_if eligible probe
    offer-dealt probe b s true = consider-dealt probe b s
    offer-dealt probe b s false = omega arith

    total-filter :
        (test : AnyProbe → Bool) (probe : AnyProbe) (probes : List AnyProbe)
        → total of_probe (filter test (probe ∷ probes))
          ≡ weight_if (test probe) probe + total of_probe (filter test probes)
    total-filter test probe probes = ground arith

    pub select_from-dealt :
        (probes : List AnyProbe) (b : Budget) (s : Selection)
        → dealt ((select_from options probes b s).1)
          ≡ dealt s + total of_probe (filter (is_eligible options) probes)
    unfolding select_from
    select_from-dealt [] b s = omega arith
    select_from-dealt (probe ∷ probes) b s =
        let next = offer options probe b s (is_eligible options probe) in
        select_from-dealt probes (next.0) (next.1)
        ∙ omega (
          arith,
          offer-dealt probe b s (is_eligible options probe),
          total-filter (is_eligible options) probe probes,
        )
