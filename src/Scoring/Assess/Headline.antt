-- ===== src/Scoring/Assess/Headline.antt =====
-- What the headline of packages/core/src/scoring/assess.ts takes, from the draws to the verdict.
use verif_ai.Common.{
  ℕ, ◌≤◌, ◌<◌, ◌≡◌, ◌≢◌, inl, inr, refl, sym, ap, ◌∙◌, Bool, true, false, arith, Bool-cases,
}
use verif_ai.Types.Assessment.{
  matches_claim, uniform, fractional, obstructed, pass, fail, Assessment, Verdict,
}
use verif_ai.Types.Run.{group_b, group_c, group_d}
use verif_ai.Scoring.Numbers.{Numbers, Le, IsUnit}
use verif_ai.Scoring.Verdict.{Result, ok, throws, Fault, type_error, verdict_for, verdict_for_iff}
use verif_ai.Scoring.Aggregate.{aggregate, vetoes_of, check_signals, llrs_of, posteriors_of}
use verif_ai.Scoring.Ceiling.{ceiling_for, group_ran}
use verif_ai.Scoring.Ceiling.Range.{ceiling_for-range}
use verif_ai.Scoring.Assess.{
  Scoring, Scored, Posteriors, has, assess, scored, assessment_of, confidence_of, posteriors_with,
  epsilon_from,
}
use verif_ai.Scoring.Assess.Named.{identity_of-matches_claim}
use verif_ai.Scoring.Assess.Ranges.{confidence_of-range}

contradiction : {b : Bool} → b ≡ true → b ≢ false
contradiction h k = ground arith

ok_inj : {A : Type 0} {a b : A} → ok a ≡ ok b → a ≡ b
ok_inj h = ground arith

throws≢ok : {A : Type 0} {f : Fault} {a : A} → ◌≢◌ {A = Result A} (throws f) (ok a)
throws≢ok h = ground arith

module _ (n : Numbers) where
  open n use {Num, le, milli, le_trans, milli_strict}

  module _ (s : Scoring n) where
    abbrev the_posteriors : Posteriors n
    the_posteriors =
        posteriors_with n (posteriors_of n (llrs_of n s.signals s.pairing))
          (epsilon_from n s.dilution)

    abbrev the_assessment : Assessment
    the_assessment = assessment_of n the_posteriors (epsilon_from n s.dilution) s

    abbrev the_confidence : Num
    the_confidence = confidence_of n the_assessment the_posteriors s

    -- Exact signals are scored, others are a type error.
    assess-checked :
        check_signals n s.signals ≡ true
        → assess n s
          ≡ scored n the_assessment the_posteriors s (verdict_for n the_assessment the_confidence)
    unfolding assess aggregate
    assess-checked e = rw e refl

    assess-unchecked : check_signals n s.signals ≡ false → assess n s ≡ throws type_error
    unfolding assess aggregate
    assess-unchecked e = rw e refl

    named :
        the_assessment.identity ≡ matches_claim
        → (has (vetoes_of n s.signals) matches_claim ≡ false)
          × (the_assessment.consistency ≢ fractional)
    unfolding assessment_of
    named h = identity_of-matches_claim n _ _ (vetoes_of n s.signals) h

    in_range :
        IsUnit n the_confidence
        × Le n the_confidence ((ceiling_for n s.outcomes s.signals s.pairing).value)
    in_range = confidence_of-range n the_assessment (llrs_of n s.signals s.pairing) s

    scored_ok :
        (result : Scored n) (r : Result Verdict)
        → scored n the_assessment the_posteriors s r ≡ ok result
        → (result.assessment ≡ the_assessment)
          × (result.confidence ≡ the_confidence)
          × (result.ceiling ≡ ceiling_for n s.outcomes s.signals s.pairing)
          × (r ≡ ok result.headline)
    scored_ok result (ok verdict) h =
        let same = ok_inj h in
        (
          sym (ap (λ (x : Scored n). x.assessment) same),
          sym (ap (λ (x : Scored n). x.confidence) same),
          sym (ap (λ (x : Scored n). x.ceiling) same),
          ap ok (ap (λ (x : Scored n). x.headline) same),
        )
    scored_ok result (throws fault) h = ground arith

    assess-ok :
        (result : Scored n)
        → assess n s ≡ ok result
        → (result.assessment ≡ the_assessment)
          × (result.confidence ≡ the_confidence)
          × (result.ceiling ≡ ceiling_for n s.outcomes s.signals s.pairing)
          × (verdict_for n the_assessment the_confidence ≡ ok result.headline)
    assess-ok result h = elim (Bool-cases (check_signals n s.signals)) [
      | inl e ↦ scored_ok result _ (sym (assess-checked e) ∙ h)
      | inr e ↦ absurd (throws≢ok (sym (assess-unchecked e) ∙ h))
    ]

    over_ceiling :
        (bar limit : ℕ)
        → bar ≤ 1000
        → limit < bar
        → Le n (milli bar) the_confidence
        → ¬ Le n ((ceiling_for n s.outcomes s.signals s.pairing).value) (milli limit)
    over_ceiling bar limit small h enough low =
        contradiction (le_trans _ _ _ enough (le_trans _ _ _ in_range.1 low))
          (milli_strict bar limit small h)

    both_ran :
        (bar : ℕ)
        → bar ≤ 1000
        → 750 < bar
        → Le n (milli bar) the_confidence
        → (group_ran s.outcomes group_b ≡ true) × (group_ran s.outcomes group_c ≡ true)
    both_ran bar small h enough =
        let (_, _, both, _, _) = ceiling_for-range n s.outcomes s.signals s.pairing in
        elim both [ inl ran ↦ ran | inr low ↦ absurd (over_ceiling bar 750 small h enough low) ]

    pass_lem :
        verdict_for n the_assessment the_confidence ≡ ok pass
        → (has (vetoes_of n s.signals) matches_claim ≡ false)
          × (the_assessment.consistency ≡ uniform)
          × (the_assessment.evidence ≢ obstructed)
          × Le n (milli 800) the_confidence
          × (group_ran s.outcomes group_b ≡ true)
          × (group_ran s.outcomes group_c ≡ true)
    pass_lem h =
        let ((conditions, _), _, _, _) = verdict_for_iff n the_assessment the_confidence in
        let (claim, one, clear, enough, _) = conditions h in
        let (b, c) = both_ran 800 (omega arith) (omega arith) enough in
        ((named claim).0, one, clear, enough, b, c)

    fail_lem :
        verdict_for n the_assessment the_confidence ≡ ok fail
        → (the_assessment.identity ≢ matches_claim)
          × Le n (milli 900) the_confidence
          × (group_ran s.outcomes group_b ≡ true)
          × (group_ran s.outcomes group_c ≡ true)
          × (group_ran s.outcomes group_d ≡ true)
    fail_lem h =
        let (_, (conditions, _), _, _) = verdict_for_iff n the_assessment the_confidence in
        let (adverse, enough, _) = conditions h in
        let (_, _, _, _, causal) = ceiling_for-range n s.outcomes s.signals s.pairing in
        let (b, c) = both_ran 900 (omega arith) (omega arith) enough in
        (
          λ claim. ground arith,
          enough,
          b,
          c,
          elim causal [
            | inl ran ↦ ran
            | inr low ↦ absurd (over_ceiling 900 880 (omega arith) (omega arith) enough low)
          ],
        )

    -- When a run passes: no signal vetoes the claimed model, the draws read as uniform, the evidence
    -- is not obstructed, the confidence is 0.8 at least and no more than the ceiling, and the groups B
    -- and C both ran.
    pub assess-pass :
        (result : Scored n)
        → assess n s ≡ ok result
        → result.headline ≡ pass
        → (has (vetoes_of n s.signals) matches_claim ≡ false)
          × (result.assessment.consistency ≡ uniform)
          × (result.assessment.evidence ≢ obstructed)
          × Le n (milli 800) result.confidence
          × Le n result.confidence result.ceiling.value
          × (group_ran s.outcomes group_b ≡ true)
          × (group_ran s.outcomes group_c ≡ true)
    assess-pass result e h =
        let (assessment, confidence, ceiling, verdict) = assess-ok result e in
        let (vetoes, one, clear, enough, b, c) = pass_lem (verdict ∙ ap ok h) in
        rw (assessment, confidence, ceiling) (vetoes, one, clear, enough, in_range.1, b, c)

    -- When a run fails: the identity that it names is not the claimed model, the confidence is 0.9 at
    -- least and no more than the ceiling, and the groups B, C and D all ran.
    pub assess-fail :
        (result : Scored n)
        → assess n s ≡ ok result
        → result.headline ≡ fail
        → (result.assessment.identity ≢ matches_claim)
          × Le n (milli 900) result.confidence
          × Le n result.confidence result.ceiling.value
          × (group_ran s.outcomes group_b ≡ true)
          × (group_ran s.outcomes group_c ≡ true)
          × (group_ran s.outcomes group_d ≡ true)
    assess-fail result e h =
        let (assessment, confidence, ceiling, verdict) = assess-ok result e in
        let (other, enough, b, c, d) = fail_lem (verdict ∙ ap ok h) in
        rw (assessment, confidence, ceiling) (other, enough, in_range.1, b, c, d)
