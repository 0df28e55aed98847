-- ===== src/Daemon/Checks/Calls.antt =====
-- The store of packages/cli/src/daemon/checks.ts under any sequence of calls, timers and runs. A timer
-- fires only while it is set, `prepare` ends only while it is under way, and a run ends only once it
-- has begun.
use verif_ai.Common.{Bool, false, Option, none, some, List, [], ◌∷◌, ◌++◌, Text, if◌then◌else◌}
use verif_ai.Types.Events.{RunEvent}
use verif_ai.Daemon.Checks.{
  Entry, Store, Preparation, ready, CheckOutcome, is_running, find_entry, begin_create, end_create,
  start_check, drop_check, cancel, record_event, settle_check, close_store,
}

pub data Call (C R E : Type 0) : Type 0 where
  begins : Call C R E
  prepares : Text → Option (Preparation C E) → Call C R E
  starts expires cancels : Text → Call C R E
  records : Text → RunEvent → Call C R E
  settles : Text → CheckOutcome R E → Call C R E
  closes : Call C R E

abbrev pub check_of : {C E : Type 0} → Option (Preparation C E) → List C
check_of (some (ready check total)) = check ∷ []
check_of _ = []

module _ {C R E : Type 0} where
  abbrev pub empty_store : Store C R E
  empty_store = record {
    entries = [];
    preparing = false;
    closed = false;
    discarded = [];
    executed = [];
  }

  abbrev pub is_timed : Option (Entry C R E) → Bool
  is_timed none = false
  is_timed (some e) = e.expiry

  abbrev pub is_run : Option (Entry C R E) → Bool
  is_run none = false
  is_run (some e) = is_running e.state

  unfoldable pub step : Store C R E → Call C R E → Store C R E
  unfolding find_entry
  step store begins = (begin_create store).0
  step store (prepares id preparation) =
      if store.preparing then (end_create id preparation store).0 else store
  step store (starts id) = (start_check id store).0
  step store (expires id) =
      if is_timed (find_entry id store.entries) then drop_check id store else store
  step store (cancels id) = cancel id store
  step store (records id event) = record_event id event store
  step store (settles id outcome) =
      if is_run (find_entry id store.entries) then settle_check id outcome store else store
  step store closes = close_store store

  unfoldable pub run : Store C R E → List (Call C R E) → Store C R E
  unfolding step
  run store [] = store
  run store (c ∷ calls) = run (step store c) calls

  -- The check that a call brings to the store.
  abbrev pub brought_by : Store C R E → Call C R E → List C
  brought_by store (prepares id preparation) = if store.preparing then check_of preparation else []
  brought_by store _ = []

  unfoldable pub brought : Store C R E → List (Call C R E) → List C
  unfolding step
  brought store [] = []
  brought store (c ∷ calls) = brought_by store c ++ brought (step store c) calls
