-- ===== src/Web/Poll.antt =====
-- packages/web/src/lib/poll.ts: a running check as the page sees it, and the loop that keeps it
-- current. `lastSeq` is none where the source has -1. A turn of the loop is what its looks at the
-- signal and its request came to; waits and `onUpdate` are left out.
pub mod Sync
pub mod Ends
use verif_ai.Common.{
  ℕ, suc, ◌+◌, ◌-◌, max, Bool, true, false, ◌&&◌, ◌||◌, not, Option, none, some, List, [], ◌∷◌,
  ◌++◌, Text, text_eq, ltb, leb, ◌==◌, if◌then◌else◌, length, filter, drop, map,
}
use verif_ai.Types.Run.{DrawRecord}
use verif_ai.Types.Events.{
  RunEvent, draw, draw_taken, CheckState, running, finished, is_final, CheckEvent, CheckProgress,
  CheckStatusResponse,
}

abbrev pub max_log_events : ℕ
max_log_events = 400

abbrev pub max_transient_failures : ℕ
max_transient_failures = 5

pub record RunState (R E : Type 0) : Type 0 where
  pub check_id : Text
  pub state : CheckState
  pub progress : CheckProgress
  pub log : List CheckEvent
  pub last_seq : Option ℕ
  pub next_event : ℕ
  pub draws : List DrawRecord
  pub draws_taken : ℕ
  pub report : Option R
  pub error : Option E

-- entry.seq > lastSeq
abbrev pub is_after : Option ℕ → CheckEvent → Bool
is_after none e = true
is_after (some last) e = ltb last e.seq

-- lastSeq + 1
abbrev pub after_seq : Option ℕ → ℕ
after_seq none = 0
after_seq (some last) = suc last

-- `sort` by seq, which keeps the order of equal ones.
unfoldable pub insert_event : CheckEvent → List CheckEvent → List CheckEvent
insert_event e [] = e ∷ []
insert_event e (x ∷ events) =
    let rest = insert_event e events in if leb e.seq x.seq then e ∷ x ∷ events else x ∷ rest

unfoldable pub sorted_events : List CheckEvent → List CheckEvent
unfolding insert_event
sorted_events [] = []
sorted_events (e ∷ events) = insert_event e (sorted_events events)

-- `byDraw.set`, in the order of the Map.
unfoldable pub set_draw : DrawRecord → List DrawRecord → List DrawRecord
set_draw record' [] = record' ∷ []
set_draw record' (r ∷ draws) =
    let rest = set_draw record' draws in
    if r.draw == record'.draw then record' ∷ draws else r ∷ rest

abbrev pub with_event : List DrawRecord → RunEvent → List DrawRecord
with_event draws (draw number outcome) =
    set_draw (record { draw = number; outcome = outcome }) draws
with_event draws _ = draws

unfoldable pub by_draw : List DrawRecord → List CheckEvent → List DrawRecord
unfolding set_draw
by_draw draws [] = draws
by_draw draws (e ∷ fresh) = by_draw (with_event draws e.event) fresh

unfoldable pub insert_draw : DrawRecord → List DrawRecord → List DrawRecord
insert_draw r [] = r ∷ []
insert_draw r (x ∷ draws) =
    let rest = insert_draw r draws in if leb r.draw x.draw then r ∷ x ∷ draws else x ∷ rest

unfoldable pub sorted_draws : List DrawRecord → List DrawRecord
unfolding insert_draw
sorted_draws [] = []
sorted_draws (r ∷ draws) = insert_draw r (sorted_draws draws)

unfoldable pub merge_draws : List DrawRecord → List CheckEvent → List DrawRecord
unfolding by_draw sorted_draws
merge_draws draws fresh = sorted_draws (by_draw draws fresh)

abbrev pub taken_after : ℕ → RunEvent → ℕ
taken_after last (draw number outcome) = max last number
taken_after last (draw_taken number) = max last number
taken_after last _ = last

unfoldable pub last_taken : ℕ → List CheckEvent → ℕ
last_taken taken [] = taken
last_taken taken (e ∷ fresh) = last_taken (taken_after taken e.event) fresh

-- The seq of the last event, or what it was.
unfoldable pub last_seq_of : Option ℕ → List CheckEvent → Option ℕ
last_seq_of last [] = last
last_seq_of last (e ∷ fresh) = last_seq_of (some e.seq) fresh

-- slice(-MAX_LOG_EVENTS)
abbrev pub latest : List CheckEvent → List CheckEvent
latest events = drop (length events - max_log_events) events

abbrev pub or_else : {A : Type 0} → Option A → Option A → Option A
or_else none b = b
or_else (some a) b = some a

abbrev pub no_events : List CheckEvent → Bool
no_events [] = true
no_events (e ∷ events) = false

module _ {R E : Type 0} where
  abbrev pub initial_run_state : Text → ℕ → RunState R E
  initial_run_state id total = record {
    check_id = id;
    state = running;
    progress = record { done = 0; total = total; requests = 0; tokens = 0 };
    log = [];
    last_seq = none;
    next_event = 0;
    draws = [];
    draws_taken = 0;
    report = none;
    error = none;
  }

  -- `applyStatus` of another check's status or of a check that is final changes nothing.
  abbrev pub applied : RunState R E → CheckStatusResponse R E → List CheckEvent → RunState R E
  applied current status fresh =
      let last = last_seq_of current.last_seq fresh in
      record current {
        state = status.state;
        progress = status.progress;
        log = latest (current.log ++ fresh);
        last_seq = last;
        next_event = max (max current.next_event status.next_event) (after_seq last);
        draws = if no_events fresh then current.draws else merge_draws current.draws fresh;
        draws_taken = last_taken current.draws_taken fresh;
        report = or_else status.report current.report;
        error = or_else status.error current.error;
      }

  unfoldable pub apply_status : RunState R E → CheckStatusResponse R E → RunState R E
  unfolding sorted_events last_seq_of merge_draws last_taken
  apply_status current status =
      if not (text_eq status.check_id current.check_id) || is_final current.state
      then current
      else applied current status (sorted_events (filter (is_after current.last_seq) status.events))

  abbrev pub with_report : RunState R E → R → RunState R E
  with_report current report = record current { report = some report }

-- An error of a request: a code among network, busy and rate-limited is transient.
pub data ClientError : Type 0 where
  network client_busy rate_limited other_error : ClientError

abbrev pub is_transient : ClientError → Bool
is_transient other_error = false
is_transient _ = true

pub data Reply (A : Type 0) : Type 0 where
  answered : A → Reply A
  failed_with : ClientError → Reply A

-- A round of the loop: whether the signal was aborted before it, what the request for the status came
-- to and that for the report, and whether the signal was aborted when one of them failed.
pub record Round (R E : Type 0) : Type 0 where
  pub aborted_before : Bool
  pub status : Reply (CheckStatusResponse R E)
  pub report : Reply R
  pub aborted_after : Bool

pub data Polled (R E : Type 0) : Type 0 where
  resolved : RunState R E → Polled R E
  rejected : ClientError → Polled R E
  polling : RunState R E → ℕ → Polled R E

abbrev pub is_finished_state : CheckState → Bool
is_finished_state finished = true
is_finished_state _ = false

abbrev pub is_missing : {A : Type 0} → Option A → Bool
is_missing none = true
is_missing (some a) = false

module _ {R E : Type 0} where
  -- The catch of the loop.
  abbrev pub caught_request : Bool → RunState R E → ℕ → ClientError → Polled R E
  caught_request was_aborted state failures error =
      if was_aborted
      then resolved state
      else if not (is_transient error) || ltb max_transient_failures (suc failures)
      then rejected error
      else polling state (suc failures)

  -- `finish_poll`, in the try of the loop.
  abbrev pub finish_poll : Bool → RunState R E → Reply R → Polled R E
  finish_poll was_aborted state (answered report) =
      if not (is_finished_state state.state) || not (is_missing state.report)
      then resolved state
      else resolved (with_report state report)
  finish_poll was_aborted state (failed_with error) =
      if not (is_finished_state state.state) || not (is_missing state.report)
      then resolved state
      else caught_request was_aborted state 0 error

  abbrev pub tried_request :
      Bool → Reply R → RunState R E → ℕ → Reply (CheckStatusResponse R E) → Polled R E
  tried_request was_aborted report state failures (failed_with error) =
      caught_request was_aborted state failures error
  tried_request was_aborted report state failures (answered status) =
      let next = apply_status state status in
      if is_final next.state then finish_poll was_aborted next report else polling next 0

  abbrev pub unless_aborted : Bool → RunState R E → Polled R E → Polled R E
  unless_aborted was_aborted state result = if was_aborted then resolved state else result

  abbrev pub poll_round : RunState R E → ℕ → Round R E → Polled R E
  poll_round state failures round =
      unless_aborted round.aborted_before state
        (tried_request round.aborted_after round.report state failures round.status)

  abbrev pub poll_on : (RunState R E → ℕ → Polled R E) → Polled R E → Polled R E
  poll_on rest (polling state failures) = rest state failures
  poll_on rest result = result

  -- The loop of `pollCheck`, which polls on where the rounds end.
  unfoldable pub poll_check : RunState R E → ℕ → List (Round R E) → Polled R E
  unfolding apply_status
  poll_check state failures [] = polling state failures
  poll_check state failures (round ∷ rounds) =
      poll_on (λ next count. poll_check next count rounds) (poll_round state failures round)
