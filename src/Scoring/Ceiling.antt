-- ===== src/Scoring/Ceiling.antt =====
-- packages/core/src/scoring/ceiling.ts: the most confidence that a run may claim, from what ran.
-- That a skipped probe says a known reason is the type's, so `checkOutcome` has no case here.
pub mod Range
pub mod Reasons
use verif_ai.Common.{
  ℕ, suc, ◌+◌, ◌*◌, Bool, true, false, ◌&&◌, ◌||◌, not, List, [], ◌∷◌, ◌++◌, filter, any, length,
  ltb, leb, ◌==◌, if◌then◌else◌,
}
use verif_ai.Types.Run.{
  ProbeGroup, group_b, group_c, group_d, group_eq, Status, ran, skipped, SkipReason, not_applicable,
  profile, opt_in, is_gap, ProbeOutcome,
}
use verif_ai.Types.Target.{Pairing, native, cross_protocol}
use verif_ai.Scoring.Numbers.{Numbers, least, greatest}
use verif_ai.Scoring.Aggregate.{Signal, Calibration, measured}
use verif_ai.Scoring.Dispersion.{whole}

pub data CeilingReason : Type 0 where
  groups_b_c_not_run group_b_not_run group_c_not_run group_d_not_run cross_protocol_pairing
        probes_skipped calibration_documented_only :
      CeilingReason

-- The ceilings, in thousandths.
abbrev pub full_coverage_ceiling : ℕ
full_coverage_ceiling = 980

abbrev pub no_causal_ceiling : ℕ
no_causal_ceiling = 880

abbrev pub one_of_b_c_ceiling : ℕ
one_of_b_c_ceiling = 750

abbrev pub conformance_only_ceiling : ℕ
conformance_only_ceiling = 600

-- The reductions, in thousandths.
abbrev pub cross_protocol_reduction : ℕ
cross_protocol_reduction = 40

abbrev pub gap_reduction : ℕ
gap_reduction = 200

abbrev pub documented_only_reduction : ℕ
documented_only_reduction = 20

-- Any status but a skip in NOT_EVIDENCE.
abbrev pub is_evidence : Status → Bool
is_evidence ran = true
is_evidence (skipped not_applicable) = false
is_evidence (skipped profile) = false
is_evidence (skipped opt_in) = false
is_evidence (skipped reason) = true

abbrev pub has_run : ProbeOutcome → Bool
has_run outcome = elim (outcome.status) [ ran ↦ true | skipped _ ↦ false ]

abbrev pub leaves_gap : ProbeOutcome → Bool
leaves_gap outcome = elim (outcome.status) [ ran ↦ false | skipped reason ↦ is_gap reason ]

unfoldable pub applicable_outcomes : List ProbeOutcome → List ProbeOutcome
applicable_outcomes outcomes = filter (λ (o : ProbeOutcome). is_evidence o.status) outcomes

unfoldable pub group_ran : List ProbeOutcome → ProbeGroup → Bool
unfolding applicable_outcomes
group_ran outcomes group =
    let applicable =
      filter (λ (o : ProbeOutcome). group_eq o.group group) (applicable_outcomes outcomes) in
    ltb 0 (length applicable) && leb (length applicable) (length (filter has_run applicable) * 2)

-- The value of `coverage` in thousandths, from whether B, C and D ran, and its reasons.
abbrev pub covered_value : Bool → Bool → Bool → ℕ
covered_value b c d =
    let value =
      if not (b || c)
      then conformance_only_ceiling
      else if not (b && c)
      then one_of_b_c_ceiling
      else full_coverage_ceiling in
    if not d then (if leb value no_causal_ceiling then value else no_causal_ceiling) else value

abbrev pub covered_reasons : Bool → Bool → Bool → List CeilingReason
covered_reasons b c d =
    (if not (b || c)
      then groups_b_c_not_run ∷ []
      else if not (b && c)
      then (if b then group_c_not_run else group_b_not_run) ∷ []
      else [])
    ++ (if not d then group_d_not_run ∷ [] else [])

unfoldable pub coverage : List ProbeOutcome → ℕ × List CeilingReason
unfolding group_ran
coverage outcomes =
    let b = group_ran outcomes group_b in
    let c = group_ran outcomes group_c in
    let d = group_ran outcomes group_d in (covered_value b c d, covered_reasons b c d)

abbrev pub is_cross : Pairing → Bool
is_cross cross_protocol = true
is_cross native = false

abbrev pub is_measured : Calibration → Bool
is_measured measured = true
is_measured _ = false

module _ (n : Numbers) where
  open n use {Num, le, sub, mul, div, milli, round9}

  pub record Ceiling : Type 0 where
    pub value : Num
    pub reasons : List CeilingReason

  unfoldable pub gap_share : List ProbeOutcome → Num
  unfolding applicable_outcomes
  gap_share outcomes =
      let applicable = applicable_outcomes outcomes in
      if length applicable == 0
      then milli 0
      else div (whole n (length (filter leaves_gap applicable))) (whole n (length applicable))

  abbrev pub documented_only : List (Signal n) → Bool
  documented_only signals = not (any (λ (s : Signal n). is_measured s.calibration) signals)

  abbrev pub reason_if : Bool → CeilingReason → List CeilingReason
  reason_if true reason = reason ∷ []
  reason_if false reason = []

  unfoldable pub ceiling_for : List ProbeOutcome → List (Signal n) → Pairing → Ceiling
  unfolding coverage gap_share
  ceiling_for outcomes signals pairing =
      let (covered, covered_for) = coverage outcomes in
      let gaps = gap_share outcomes in
      let value =
        sub
          (sub
            (sub (milli covered)
              (if is_cross pairing then milli cross_protocol_reduction else milli 0))
            (mul (milli gap_reduction) gaps))
          (if documented_only signals then milli documented_only_reduction else milli 0) in
      record {
        value = greatest n (milli 0) (round9 value);
        reasons =
            covered_for
            ++ reason_if (is_cross pairing) cross_protocol_pairing
            ++ reason_if (not (le gaps (milli 0))) probes_skipped
            ++ reason_if (documented_only signals) calibration_documented_only;
      }
