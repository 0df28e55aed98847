-- ===== src/Runner/Run.antt =====
-- packages/core/src/runner/run.ts: the probes in turn, and one outcome for each. What a probe's turn
-- did, `runOne` with its checks of the signals, is the parameter `turns`, by the index of the probe;
-- so are the looks at the abort signal before a probe and after an error. Events are left out.
pub mod Outcomes
use verif_ai.Common.{
  ℕ, suc, ◌+◌, Bool, true, false, ◌&&◌, ◌||◌, not, Option, none, some, List, [], ◌∷◌, ◌++◌, filter,
  length, Text, ltb, ◌==◌, if◌then◌else◌,
}
use verif_ai.Types.Run.{
  SkipReason, not_applicable, budget_exceeded, endpoint_error, blocked, aborted, probe_error,
  Status, ran, skipped, ProbeOutcome, SkippedProbe, DilutionRun,
}
use verif_ai.Planner.Probe.{AnyProbe, is_dilution_probe}
use verif_ai.Planner.Plan.{is_seed, lists_twice}
use verif_ai.Runner.Session.{StopReason, unreachable, State}

-- What a probe's turn may throw.
pub data Thrown : Type 0 where
  run_stopped : StopReason → Thrown
  run_aborted probe_not_applicable probe_lost over_budget target_blocked anything_else : Thrown

-- The reason of a skip, or a stop that goes on up.
pub data Reason : Type 0 where
  skips : SkipReason → Reason
  stops : StopReason → Reason

unfoldable pub skip_reason_for : Thrown → Bool → Reason
skip_reason_for (run_stopped reason) was_aborted = stops reason
skip_reason_for run_aborted was_aborted = skips aborted
skip_reason_for probe_not_applicable was_aborted =
    if was_aborted then skips aborted else skips not_applicable
skip_reason_for probe_lost was_aborted = if was_aborted then skips aborted else skips endpoint_error
skip_reason_for over_budget was_aborted =
    if was_aborted then skips aborted else skips budget_exceeded
skip_reason_for target_blocked was_aborted = if was_aborted then skips aborted else skips blocked
skip_reason_for anything_else was_aborted = if was_aborted then skips aborted else skips probe_error

abbrev pub is_aborted : SkipReason → Bool
is_aborted aborted = true
is_aborted _ = false

module _ (S : Type 0) where
  pub record Ended : Type 0 where
    pub status : Status
    pub signals : List S

  pub data Turn : Type 0 where
    ended : Ended → Turn
    threw : Thrown → Turn

  pub record Progress : Type 0 where
    pub signals : List S
    pub skipped_probes : List SkippedProbe
    pub outcomes : List ProbeOutcome
    pub was_aborted : Bool

  abbrev pub start : Progress
  start = record { signals = []; skipped_probes = []; outcomes = []; was_aborted = false }

  abbrev pub skip_entry : AnyProbe → Status → List SkippedProbe
  skip_entry probe ran = []
  skip_entry probe (skipped reason) = record { probe_id = probe.id; reason = reason } ∷ []

  -- `settle`
  abbrev pub settle : Progress → AnyProbe → Ended → Progress
  settle progress probe end = record progress {
    signals = progress.signals ++ end.signals;
    skipped_probes = progress.skipped_probes ++ skip_entry probe end.status;
    outcomes =
        progress.outcomes
        ++ record { probe_id = probe.id; group = probe.group; status = end.status } ∷ [];
  }

  pub data RunResult : Type 0 where
    completed : Progress → Option DilutionRun → RunResult
    stopped : StopReason → RunResult
    type_error : RunResult

  -- A turn that was skipped for a reason.
  abbrev pub skipped_turn : Progress → AnyProbe → SkipReason → Progress
  skipped_turn progress probe reason =
      settle (record progress { was_aborted = progress.was_aborted || is_aborted reason }) probe
        (record { status = skipped reason; signals = [] })

  pub data Advance : Type 0 where
    goes_on : Progress → Advance
    gives_up : StopReason → Advance

  abbrev pub caught : Progress → AnyProbe → Reason → Advance
  caught progress probe (skips reason) = goes_on (skipped_turn progress probe reason)
  caught progress probe (stops reason) = gives_up reason

  -- The try of the loop, and its catch with whether the signal is aborted by then.
  abbrev pub advance : Progress → AnyProbe → Bool → Turn → Advance
  advance progress probe aborted_by_then (ended end) = goes_on (settle progress probe end)
  advance progress probe aborted_by_then (threw error) =
      caught progress probe (skip_reason_for error aborted_by_then)

  module _ (turns : ℕ → Turn) (aborted_before aborted_after : ℕ → Bool) where
    -- The body of the loop.
    abbrev pub one_turn : ℕ → AnyProbe → Progress → Advance
    one_turn index probe progress =
        if progress.was_aborted || aborted_before index
        then goes_on (skipped_turn progress probe aborted)
        else advance progress probe (aborted_after index) (turns index)

    abbrev pub after_turn : (Progress → Advance) → Advance → Advance
    after_turn rest (goes_on progress) = rest progress
    after_turn rest (gives_up reason) = gives_up reason

    unfoldable pub run_from : ℕ → List AnyProbe → Progress → Advance
    unfolding skip_reason_for
    run_from index [] progress = goes_on progress
    run_from index (probe ∷ probes) progress =
        after_turn (run_from (suc index) probes) (one_turn index probe progress)

    -- `checkOptions`, on numbers that are whole by their type.
    abbrev pub is_checked : Text → Option ℕ → List AnyProbe → Bool
    is_checked nonce draws probes =
        is_seed nonce
        && elim draws [ none ↦ true | some count ↦ not (count == 0) ]
        && not (lists_twice probes)
        && not (ltb 1 (length (filter is_dilution_probe probes)))

    -- The end of `runProbes`, on the session as the loop leaves it.
    abbrev pub result_of : State → Option DilutionRun → Advance → RunResult
    result_of session dilution (gives_up reason) = stopped reason
    result_of session dilution (goes_on progress) =
        if ltb 0 session.requests && not session.reached && not progress.was_aborted
        then stopped unreachable
        else completed progress dilution

    unfoldable pub run_probes :
        Text → Option ℕ → List AnyProbe → State → Option DilutionRun → RunResult
    unfolding run_from
    run_probes nonce draws probes session dilution =
        if is_checked nonce draws probes
        then result_of session dilution (run_from 0 probes start)
        else type_error
