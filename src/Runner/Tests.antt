-- ===== src/Runner/Tests.antt =====
-- Runs of packages/core/src/runner at concrete inputs.
use verif_ai.Common.{
  Bool, codes, String, suc, ◌+◌, ◌≤◌, arith, ℕ, ◌≡◌, refl, true, false, Option, none, some, List,
  [], ◌∷◌, map, length, ◌==◌, if◌then◌else◌,
}
use verif_ai.Types.Run.{
  group_a, Status, skipped, endpoint_error, aborted, ProbeOutcome, ran as status_ran, DrawOutcome,
  agree, lost, disagree, reference,
}
use verif_ai.Planner.Probe.{AnyProbe}
use verif_ai.Runner.Dilution.{
  DrawEvent, Attempt, tried, fresh, DilutionConfig, DilutionPlan, judge_draw, settle, draw_all,
  mode_of,
}
use verif_ai.Runner.Dilution.Run.{DilutionOutcome, ran, run_of, run_dilution}
use verif_ai.Runner.Dilution.Ends.{IsBounded, run_dilution_lem}
use verif_ai.Runner.Session.{
  probe_lost, ProbeRequest, SendOptions, Response, TransportResult, answered, State, initial_state,
  SessionOptions, Outcome, Exchange, send, attempt, wait, response_attempt, refusal_of,
  is_transient_status,
}
use verif_ai.Runner.Session.Sends.{unrecorded, state_of, resends, send_lem}
use verif_ai.Runner.Run.{
  Turn, ended, threw, probe_lost as lost_probe, Progress, completed, skip_reason_for, run_from,
  run_probes,
}
use verif_ai.Runner.Run.Outcomes.{ids_of, skips_of, run_probes-outcomes}

abbrev config : DilutionConfig
config = record { draws = 9; spread_ms = 0 }

abbrev plan : DilutionPlan ℕ
plan = record {
  basis = reference;
  expected = some "8";
  conclude = λ readings. length readings ∷ [];
}

-- The third draw is lost, and the fifth reads as another model.
abbrev attempts : ℕ → Attempt
attempts draw =
    if draw == 3
    then tried true none (fresh ∷ [])
    else tried false (some (if draw == 5 then "9" else "8")) (fresh ∷ [])

abbrev outcomes :
    Option (DilutionOutcome plan config 1 attempts × List DrawEvent) → List DrawOutcome
outcomes (some (ran run signals, events)) = map (λ d. d.outcome) run.draws
outcomes _ = []

-- Nine draws were planned; the lost one is replaced by a tenth.
lost_draw_is_replaced :
    outcomes (run_dilution plan config 1 attempts "f1")
    ≡ agree ∷ agree ∷ lost ∷ agree ∷ disagree ∷ agree ∷ agree ∷ agree ∷ agree ∷ agree ∷ []
unfolding run_dilution draw_all settle judge_draw run_of mode_of
lost_draw_is_replaced = refl

run_dilution_lem_example :
    (o : DilutionOutcome plan config 1 attempts) × (events : List DrawEvent) × (run_dilution plan
        config 1 attempts "f1"
      ≡ some (o, events))
    × IsBounded plan config 1 attempts o
run_dilution_lem_example = run_dilution_lem plan config 1 attempts "f1"

-- An endpoint that is busy once and then answers.
abbrev busy_once : ℕ → Option TransportResult
busy_once request = some (
    answered (record { status = if request == 0 then 503 else 200; body = []; connection = fresh }))

abbrev with_key : SessionOptions
with_key = record { has_key = true; max_requests = 5; max_tokens = 100 }

abbrev asks : ProbeRequest
asks = record { credential = none; provokes = []; tokens = some 10; generates = true }

abbrev from_probe : SendOptions
from_probe = record { probe_id = "a1"; draw = none }

abbrev a_second : Response → Option ℕ
a_second response = some 1000

abbrev sent : Outcome Exchange
sent =
    send with_key busy_once (λ look. false) a_second (λ response. false) asks from_probe
      initial_state

abbrev after_send : State
after_send = state_of sent

busy_request_is_retried : (after_send.requests ≡ 2) × (after_send.tokens ≡ 20)
unfolding send attempt wait response_attempt refusal_of is_transient_status
busy_request_is_retried = (refl, refl)

-- A request that the transport rejects is counted, and leaves no evidence.
abbrev after_rejection : State
after_rejection = state_of (
    send with_key (λ request. none) (λ look. false) a_second (λ response. false) asks from_probe
      initial_state)

rejected_request_is_counted :
    (after_rejection.requests ≡ 1) × (after_rejection.tokens ≡ 10) × (after_rejection.evidence ≡ [])
unfolding send attempt wait response_attempt refusal_of is_transient_status
rejected_request_is_counted = (refl, refl, refl)

send_lem_example :
    (after_send.requests ≤ 5)
    × (after_send.tokens ≤ 100)
    × (after_send.requests
        ≤ 0 + suc (resends with_key busy_once (λ look. false) a_second (λ response. false) none))
    × (length after_send.evidence + unrecorded sent + 0 ≡ 0 + after_send.requests)
send_lem_example =
    send_lem with_key busy_once (λ look. false) a_second (λ response. false) asks from_probe
      initial_state (omega arith) (omega arith)

abbrev busy : Response
busy = record { status = 503; body = []; connection = fresh }

abbrev a_probe : String → AnyProbe
a_probe id = record {
  id = id;
  group = group_a;
  protocols = [];
  vendors = [];
  applies_to = none;
  needs_key = false;
  opt_in = false;
  cost = record { requests = 1; tokens = 1 };
}

-- The first probe ran, the second was lost, and the run was aborted before the third.
abbrev turns : ℕ → Turn ℕ
turns index =
    if index == 0
    then ended (record { status = status_ran; signals = 7 ∷ [] })
    else threw lost_probe

abbrev before : ℕ → Bool
before index = index == 2

abbrev outcome : String → Status → ProbeOutcome
outcome id status = record { probe_id = id; group = group_a; status = status }

abbrev progress : Progress ℕ
progress = record {
  signals = 7 ∷ [];
  skipped_probes =
      record { probe_id = "b"; reason = endpoint_error }
      ∷ record { probe_id = "c"; reason = aborted }
      ∷ [];
  outcomes =
      outcome "a" status_ran
      ∷ outcome "b" (skipped endpoint_error)
      ∷ outcome "c" (skipped aborted)
      ∷ [];
  was_aborted = true;
}

run_completes :
    run_probes ℕ turns before
      (λ index. false)
      (codes "abcdefgh")
      none
      (a_probe "a" ∷ a_probe "b" ∷ a_probe "c" ∷ [])
      after_send
      none
    ≡ completed progress none
unfolding run_probes run_from skip_reason_for send
run_completes = refl

run_probes-outcomes_example :
    (ids_of progress.outcomes ≡ "a" ∷ "b" ∷ "c" ∷ [])
    × (skips_of progress.outcomes ≡ progress.skipped_probes)
run_probes-outcomes_example =
    run_probes-outcomes ℕ turns before (λ index. false) (codes "abcdefgh") none
      (a_probe "a" ∷ a_probe "b" ∷ a_probe "c" ∷ []) after_send none progress none run_completes
