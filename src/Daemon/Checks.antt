-- ===== src/Daemon/Checks.antt =====
-- packages/cli/src/daemon/checks.ts: the store of `createCheckStore`. Its calls, and what reaches it
-- from a timer or a run, are steps in whatever order they come; `create` is two of them, before and
-- after `prepare`. The two Maps are one list in their order, each entry with its log, since both are
-- written and deleted together. A timer is whether it is set, a controller whether it was aborted.
-- `discarded` and `executed` keep what `discard` and `execute` were called on.
pub mod Calls
pub mod Entries
pub mod Invariant
pub mod Reach
pub mod Account
pub mod Keys
pub mod Status
use mathlib.Core.Option
use verif_ai.Common.{
  ℕ, suc, ◌+◌, ◌-◌, min, Bool, true, false, ◌&&◌, ◌||◌, not, Option, none, some, List, [], ◌∷◌,
  ◌++◌, Text, text_eq, ltb, ◌==◌, if◌then◌else◌, length, filter, any, take, drop, map,
}
use verif_ai.Types.Events.{
  RunEvent, probe_finished, request, CheckState, prepared, running, finished, stopped, failed,
  cancelled, is_final, CheckEvent, CheckProgress, CheckStatusResponse,
}

abbrev pub max_finished_checks : ℕ
max_finished_checks = 20

abbrev pub max_stored_events : ℕ
max_stored_events = 10000

abbrev pub max_events_per_response : ℕ
max_events_per_response = 500

-- A check, a report and an error are what the service makes them.
pub record Entry (C R E : Type 0) : Type 0 where
  pub check_id : Text
  pub state : CheckState
  pub progress : CheckProgress
  pub held : Option C
  pub controller : Option Bool
  pub expiry : Bool
  pub report : Option R
  pub error : Option E
  pub log : List CheckEvent

pub record Store (C R E : Type 0) : Type 0 where
  pub entries : List (Entry C R E)
  pub preparing : Bool
  pub closed : Bool
  pub discarded : List C
  pub executed : List C

pub data CheckOutcome (R E : Type 0) : Type 0 where
  has_finished : R → ℕ → ℕ → CheckOutcome R E
  was_cancelled : ℕ → ℕ → CheckOutcome R E
  was_stopped has_failed : E → CheckOutcome R E

pub data Transition : Type 0 where
  ok not_found conflict : Transition

pub data CreateResult (E : Type 0) : Type 0 where
  created : Text → CreateResult E
  busy : CreateResult E
  refused : E → CreateResult E

-- A prepared check with the number of its probes, or an error.
pub data Preparation (C E : Type 0) : Type 0 where
  ready : C → ℕ → Preparation C E
  not_ready : E → Preparation C E

abbrev pub is_prepared : CheckState → Bool
is_prepared prepared = true
is_prepared _ = false

abbrev pub is_running : CheckState → Bool
is_running running = true
is_running _ = false

abbrev pub progress_after : CheckProgress → RunEvent → CheckProgress
progress_after progress (probe_finished id status signals) = record progress {
  done = progress.done + 1;
}
progress_after progress (request id status tokens) = record progress {
  requests = progress.requests + 1;
  tokens = progress.tokens + tokens;
}
progress_after progress _ = progress

-- `record`, of an event in a log.
abbrev pub logged : RunEvent → List CheckEvent → List CheckEvent
logged event log =
    if ltb (length log) max_stored_events
    then log ++ record { seq = length log; event = event } ∷ []
    else log

abbrev pub checks_in : {C : Type 0} → Option C → List C
checks_in none = []
checks_in (some check) = check ∷ []

module _ {C R E : Type 0} where
  unfoldable pub find_entry : Text → List (Entry C R E) → Option (Entry C R E)
  find_entry id [] = none
  find_entry id (e ∷ entries) = if text_eq id e.check_id then some e else find_entry id entries

  -- `update`
  unfoldable pub update_entry :
      Text → (Entry C R E → Entry C R E) → List (Entry C R E) → List (Entry C R E)
  update_entry id change [] = []
  update_entry id change (e ∷ entries) =
      if text_eq id e.check_id then change e ∷ entries else e ∷ update_entry id change entries

  -- `entries.set` of a new check, which takes the place of one of its id.
  unfoldable pub set_entry : Entry C R E → List (Entry C R E) → List (Entry C R E)
  set_entry entry [] = entry ∷ []
  set_entry entry (e ∷ entries) =
      if text_eq entry.check_id e.check_id then entry ∷ entries else e ∷ set_entry entry entries

  unfoldable pub is_active : List (Entry C R E) → Bool
  is_active entries = any (λ e. is_running e.state) entries

  -- What `drop` makes of an entry.
  abbrev pub dropped : Entry C R E → Entry C R E
  dropped e = record e { held = none; expiry = false; state = cancelled }

  abbrev pub held_by : Option (Entry C R E) → List C
  held_by none = []
  held_by (some e) = checks_in e.held

  unfoldable pub drop_check : Text → Store C R E → Store C R E
  unfolding update_entry find_entry
  drop_check id store = record store {
    entries = update_entry id dropped store.entries;
    discarded = store.discarded ++ held_by (find_entry id store.entries);
  }

  -- The loop that drops each prepared check; the ids of a Map are distinct.
  unfoldable pub drop_prepared : List (Entry C R E) → List (Entry C R E)
  drop_prepared [] = []
  drop_prepared (e ∷ entries) =
      (if is_prepared e.state then dropped e else e) ∷ drop_prepared entries

  unfoldable pub held_prepared : List (Entry C R E) → List C
  held_prepared [] = []
  held_prepared (e ∷ entries) =
      (if is_prepared e.state then checks_in e.held else []) ++ held_prepared entries

  unfoldable pub finals : List (Entry C R E) → ℕ
  finals entries = length (filter (λ e. is_final e.state) entries)

  -- Deletes the first so many of the entries in a final state.
  unfoldable pub prune_first : ℕ → List (Entry C R E) → List (Entry C R E)
  prune_first n [] = []
  prune_first n (e ∷ entries) =
      let shorter = prune_first (n - 1) entries in
      let same = e ∷ prune_first n entries in if is_final e.state && ltb 0 n then shorter else same

  unfoldable pub prune : List (Entry C R E) → List (Entry C R E)
  unfolding prune_first finals
  prune entries = prune_first (finals entries - max_finished_checks) entries

  abbrev pub recorded : RunEvent → Entry C R E → Entry C R E
  recorded event e = record e {
    log = logged event e.log;
    progress = progress_after e.progress event;
  }

  abbrev pub settled : CheckOutcome R E → Entry C R E → Entry C R E
  settled (has_finished report requests tokens) e = record e {
    controller = none;
    state = finished;
    progress = record e.progress { requests = requests; tokens = tokens };
    report = some report;
  }
  settled (was_cancelled requests tokens) e = record e {
    controller = none;
    state = cancelled;
    progress = record e.progress { requests = requests; tokens = tokens };
  }
  settled (was_stopped error) e = record e {
    controller = none;
    state = stopped;
    error = some error;
  }
  settled (has_failed error) e = record e { controller = none; state = failed; error = some error }

  abbrev pub started : Entry C R E → Entry C R E
  started e = record e { held = none; expiry = false; state = running; controller = some false }

  abbrev pub aborted_entry : Entry C R E → Entry C R E
  aborted_entry e = record e { controller = Option.map (λ was_aborted. true) e.controller }

  abbrev pub new_entry : Text → C → ℕ → Entry C R E
  new_entry id check total = record {
    check_id = id;
    state = prepared;
    progress = record { done = 0; total = total; requests = 0; tokens = 0 };
    held = some check;
    controller = none;
    expiry = true;
    report = none;
    error = none;
    log = [];
  }

  -- `create` before `prepare`: whether it goes on.
  unfoldable pub begin_create : Store C R E → Store C R E × Bool
  unfolding is_active
  begin_create store =
      if store.closed || store.preparing || is_active store.entries
      then (store, false)
      else (record store { preparing = true }, true)

  unfoldable pub admit_check : Text → Preparation C E → Store C R E → Store C R E × CreateResult E
  unfolding is_active drop_prepared held_prepared set_entry prune
  admit_check id (not_ready error) store = (store, refused error)
  admit_check id (ready check total) store =
      if store.closed || is_active store.entries
      then (record store { discarded = store.discarded ++ check ∷ [] }, busy)
      else (
        record store {
          entries = prune (set_entry (new_entry id check total) (drop_prepared store.entries));
          discarded = store.discarded ++ held_prepared store.entries;
        },
        created id,
      )

  -- `create` after `prepare`, with its `finally`; `none` where `prepare` rejects, and `create` does.
  unfoldable pub end_create :
      Text → Option (Preparation C E) → Store C R E → Store C R E × Option (CreateResult E)
  unfolding admit_check
  end_create id none store = (record store { preparing = false }, none)
  end_create id (some preparation) store =
      let (after, result) = admit_check id preparation store in
      (record after { preparing = false }, some result)

  abbrev pub start_with : Text → Entry C R E → Option C → Store C R E → Store C R E × Transition
  start_with id e none store = (store, conflict)
  start_with id e (some check) store =
      if not (is_prepared e.state) || store.closed then (store, conflict) else (
        record store {
          entries = update_entry id started store.entries;
          executed = store.executed ++ check ∷ [];
        },
        ok,
      )

  abbrev pub start_found : Text → Option (Entry C R E) → Store C R E → Store C R E × Transition
  start_found id none store = (store, not_found)
  start_found id (some e) store = start_with id e e.held store

  unfoldable pub start_check : Text → Store C R E → Store C R E × Transition
  unfolding find_entry update_entry
  start_check id store = start_found id (find_entry id store.entries) store

  abbrev pub cancel_found : Text → Option (Entry C R E) → Store C R E → Store C R E
  cancel_found id none store = store
  cancel_found id (some e) store =
      if is_prepared e.state
      then drop_check id store
      else if is_running e.state
      then record store { entries = update_entry id aborted_entry store.entries }
      else store

  unfoldable pub cancel : Text → Store C R E → Store C R E
  unfolding find_entry update_entry drop_check
  cancel id store = cancel_found id (find_entry id store.entries) store

  unfoldable pub record_event : Text → RunEvent → Store C R E → Store C R E
  unfolding update_entry
  record_event id event store = record store {
    entries = update_entry id (recorded event) store.entries;
  }

  unfoldable pub settle_check : Text → CheckOutcome R E → Store C R E → Store C R E
  unfolding update_entry prune
  settle_check id outcome store = record store {
    entries = prune (update_entry id (settled outcome) store.entries);
  }

  abbrev pub close_entry : Entry C R E → Entry C R E
  close_entry e =
      if is_prepared e.state then dropped e else if is_running e.state then aborted_entry e else e

  unfoldable pub close_store : Store C R E → Store C R E
  unfolding held_prepared
  close_store store = record store {
    closed = true;
    entries = map close_entry store.entries;
    discarded = store.discarded ++ held_prepared store.entries;
  }

  -- `status` of the entry that it finds.
  abbrev pub status_for : Text → ℕ → Entry C R E → CheckStatusResponse R E
  status_for id since e =
      let from = min since (length e.log) in
      let events = take max_events_per_response (drop from e.log) in
      record {
        check_id = id;
        state = e.state;
        progress = e.progress;
        events = events;
        next_event = from + length events;
        report = e.report;
        error = e.error;
      }

  unfoldable pub status_of : Text → ℕ → List (Entry C R E) → Option (CheckStatusResponse R E)
  unfolding find_entry
  status_of id since entries = Option.map (status_for id since) (find_entry id entries)
