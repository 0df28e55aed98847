-- ===== src/Scoring/Ceiling/Reasons.antt =====
-- When a group ran, and what the reasons of packages/core/src/scoring/ceiling.ts say.
use verif_ai.Common.{
  All, ◌≢◌, ◌≡◌, ◌↔◌, ◌⊎◌, refl, Bool, true, false, not, List, [], ◌∷◌, ◌++◌, Elem, arith,
}
use verif_ai.Types.Run.{ProbeOutcome, group_b, group_c, group_d}
use verif_ai.Types.Target.{Pairing, cross_protocol}
use verif_ai.Scoring.Numbers.{Numbers, Le}
use verif_ai.Scoring.Aggregate.{Signal, measured}
use verif_ai.Scoring.Ceiling.{
  group_ran, covered_reasons, coverage, gap_share, ceiling_for, CeilingReason, groups_b_c_not_run,
  group_b_not_run, group_c_not_run, group_d_not_run, cross_protocol_pairing, probes_skipped,
  calibration_documented_only, is_cross, documented_only, reason_if,
}

Elem-append : {A : Type 0} (a : A) (xs ys : List A) → Elem a (xs ++ ys) ↔ (Elem a xs ⊎ Elem a ys)
Elem-append a [] ys = ground arith
Elem-append a (x ∷ xs) ys = ground (arith, Elem-append a xs ys)

Elem-reason_if :
    (n : Numbers) (b : Bool) (reason r : CeilingReason)
    → Elem r (reason_if n b reason) ↔ ((b ≡ true) × (r ≡ reason))
Elem-reason_if n b reason r = ground arith

Elem-covered_reasons :
    (b c d : Bool) (r : CeilingReason)
    → Elem r (covered_reasons b c d) ↔ (
        ((r ≡ groups_b_c_not_run) × (b ≡ false) × (c ≡ false))
        ⊎ ((r ≡ group_b_not_run) × (b ≡ false) × (c ≡ true))
        ⊎ ((r ≡ group_c_not_run) × (b ≡ true) × (c ≡ false))
        ⊎ ((r ≡ group_d_not_run) × (d ≡ false)))
Elem-covered_reasons b c d r = ground arith

Elem-four :
    {A : Type 0} (a : A) (ws xs ys zs : List A)
    → Elem a (ws ++ xs ++ ys ++ zs) ↔ (Elem a ws ⊎ Elem a xs ⊎ Elem a ys ⊎ Elem a zs)
Elem-four a ws xs ys zs =
    ground
      (arith, Elem-append a (ws ++ xs ++ ys) zs, Elem-append a (ws ++ xs) ys, Elem-append a ws xs)

is_cross_iff : (pairing : Pairing) → (is_cross pairing ≡ true) ↔ (pairing ≡ cross_protocol)
is_cross_iff pairing = ground arith

module _ (n : Numbers) where
  open n use {le, milli}

  reasons_parts :
      (outcomes : List ProbeOutcome) (signals : List (Signal n)) (pairing : Pairing)
      → (ceiling_for n outcomes signals pairing).reasons
        ≡ (coverage outcomes).1
          ++ reason_if n (is_cross pairing) cross_protocol_pairing
          ++ reason_if n (not (le (gap_share n outcomes) (milli 0))) probes_skipped
          ++ reason_if n (documented_only n signals) calibration_documented_only
  unfolding ceiling_for
  reasons_parts outcomes signals pairing = refl

  unmeasured_iff :
      (signals : List (Signal n))
      → (documented_only n signals ≡ true)
        ↔ All (λ (s : Signal n). s.calibration ≢ measured) signals
  unmeasured_iff [] = (λ _. tt, λ _. refl)
  unmeasured_iff (s ∷ signals) = ground (arith, unmeasured_iff signals)

  -- Which reasons a ceiling carries, for any outcomes, signals and pairing: the one of B and C that
  -- did not run or both as one reason, D when it did not run, a cross-protocol pairing, a gap share
  -- above 0, and signals of which none is measured. It carries no other reason.
  pub ceiling_for-reasons :
      (outcomes : List ProbeOutcome) (signals : List (Signal n)) (pairing : Pairing)
      (reason : CeilingReason)
      → Elem reason ((ceiling_for n outcomes signals pairing).reasons) ↔ (
          ((reason ≡ groups_b_c_not_run)
            × (group_ran outcomes group_b ≡ false)
            × (group_ran outcomes group_c ≡ false))
          ⊎ ((reason ≡ group_b_not_run)
              × (group_ran outcomes group_b ≡ false)
              × (group_ran outcomes group_c ≡ true))
          ⊎ ((reason ≡ group_c_not_run)
              × (group_ran outcomes group_b ≡ true)
              × (group_ran outcomes group_c ≡ false))
          ⊎ ((reason ≡ group_d_not_run) × (group_ran outcomes group_d ≡ false))
          ⊎ ((reason ≡ cross_protocol_pairing) × (pairing ≡ cross_protocol))
          ⊎ ((reason ≡ probes_skipped) × (¬ Le n (gap_share n outcomes) (milli 0)))
          ⊎ ((reason ≡ calibration_documented_only)
              × All (λ (s : Signal n). s.calibration ≢ measured) signals))
  unfolding coverage
  ceiling_for-reasons outcomes signals pairing reason =
      let parts = reasons_parts outcomes signals pairing in
      let b = group_ran outcomes group_b in
      let c = group_ran outcomes group_c in
      let d = group_ran outcomes group_d in
      let gap = not (le (gap_share n outcomes) (milli 0)) in
      let covered = Elem-covered_reasons b c d reason in
      let crossed = Elem-reason_if n (is_cross pairing) cross_protocol_pairing reason in
      let skips = Elem-reason_if n gap probes_skipped reason in
      let unmeasured =
        Elem-reason_if n (documented_only n signals) calibration_documented_only reason in
      let listed =
        Elem-four reason (covered_reasons b c d)
          (reason_if n (is_cross pairing) cross_protocol_pairing) (reason_if n gap probes_skipped)
          (reason_if n (documented_only n signals) calibration_documented_only) in
      rw parts (
        ground (
          arith,
          listed,
          covered,
          crossed,
          skips,
          unmeasured,
          is_cross_iff pairing,
          unmeasured_iff signals,
        ))
