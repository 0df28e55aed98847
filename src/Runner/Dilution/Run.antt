-- ===== src/Runner/Dilution/Run.antt =====
-- What comes of the draws: `runOf` and `runDilution` of packages/core/src/runner/dilution.ts.
use verif_ai.Common.{
  ℕ, suc, ◌+◌, Bool, true, false, Option, none, some, List, [], ◌∷◌, ◌++◌, map, String,
  if◌then◌else◌,
}
use verif_ai.Types.Run.{
  SkipReason, unsupported_by_transport, budget_exceeded, agree, disagree, DrawRecord, reference,
  mode, DilutionRun,
}
use verif_ai.Runner.Dilution.{
  Taken, reading, Attempt, DrawEvent, judged, mode_of, Loop, initial_loop, Ended, done, budget,
  unsupported, threw, DilutionConfig, DilutionPlan, outcome_of, allowance, draw_all,
}

module _ {S : Type 0} (plan : DilutionPlan S) (config : DilutionConfig) (requests_per_draw : ℕ)
    (attempts : ℕ → Attempt) where
  abbrev pub readings_of : List Taken → List String
  readings_of [] = []
  readings_of (t ∷ ts) = elim (t.result) [
    | reading text ↦ text ∷ readings_of ts
    | _ ↦ readings_of ts
  ]

  abbrev pub expected_of : List Taken → Option String
  unfolding mode_of
  expected_of taken = elim (plan.basis) [
    | reference ↦ plan.expected
    | mode ↦ mode_of (readings_of taken)
  ]

  unfoldable pub run_of : String → List Taken → DilutionRun
  unfolding mode_of
  run_of probe_id taken = record {
    probe_id = probe_id;
    basis = plan.basis;
    requests_per_draw = requests_per_draw;
    draws =
        map
          (λ (t : Taken). record {
            draw = t.draw;
            outcome = outcome_of (expected_of taken) t.result;
          })
          taken;
    readings = readings_of taken;
    planned = config.draws;
    spread_ms = config.spread_ms;
  }

  pub data DilutionOutcome : Type 0 where
    ran : DilutionRun → List S → DilutionOutcome
    skipped_for : SkipReason → Option DilutionRun → DilutionOutcome
    throws : DilutionOutcome

  abbrev pub concluded : String → Ended → Loop → DilutionOutcome
  unfolding run_of
  concluded probe_id done loop =
      ran (run_of probe_id loop.taken) (plan.conclude (readings_of loop.taken))
  concluded probe_id budget loop = skipped_for budget_exceeded (some (run_of probe_id loop.taken))
  concluded probe_id unsupported loop = skipped_for unsupported_by_transport none
  concluded probe_id threw loop = throws

  -- The events of a run against its own majority, whose draws are judged once all are in.
  abbrev pub late_events : List DrawRecord → List DrawEvent
  late_events [] = []
  late_events (each ∷ records) = elim (each.outcome) [
    | agree ↦ judged each.draw agree ∷ late_events records
    | disagree ↦ judged each.draw disagree ∷ late_events records
    | _ ↦ late_events records
  ]

  abbrev pub with_late : String → Loop → List DrawEvent
  unfolding run_of
  with_late probe_id loop = elim (plan.basis) [
    | mode ↦ loop.events ++ late_events (run_of probe_id loop.taken).draws
    | reference ↦ loop.events
  ]

  abbrev pub all_events : String → Ended → Loop → List DrawEvent
  unfolding run_of
  all_events probe_id done loop = with_late probe_id loop
  all_events probe_id budget loop = with_late probe_id loop
  all_events probe_id _ loop = loop.events

  -- `checkPlan`: a reference basis says what the claimed model reads.
  abbrev pub is_checked : Bool
  is_checked = elim (plan.basis) [
    | reference ↦ elim (plan.expected) [ none ↦ false | some _ ↦ true ]
    | mode ↦ true
  ]

  -- Fuel for every pass that `drawAll` can make, by Ends.draw_all-ends.
  abbrev pub enough : ℕ
  enough = suc (config.draws + allowance plan config requests_per_draw attempts)

  unfoldable pub run_dilution : String → Option (DilutionOutcome × List DrawEvent)
  unfolding draw_all run_of
  run_dilution probe_id =
      if is_checked
      then elim (draw_all plan config requests_per_draw attempts enough initial_loop) [
        | none ↦ none
        | some (ended, loop) ↦ some (concluded probe_id ended loop, all_events probe_id ended loop)
      ]
      else some (throws, [])
