-- ===== src/Types/Events.antt =====
-- The events of a run, RunEvent of packages/core/src/runner/types.ts, and the states and progress of a
-- check, of packages/core/src/service/contract.ts.
use verif_ai.Common.{ℕ, Bool, true, false, Option, List, String, Text}
use verif_ai.Types.Run.{Status, DrawOutcome}

pub data RunEvent : Type 0 where
  probe_started : String → ℕ → ℕ → RunEvent
  probe_finished : String → Status → ℕ → RunEvent
  request : String → Option ℕ → ℕ → RunEvent
  waiting : String → ℕ → RunEvent
  draw : ℕ → DrawOutcome → RunEvent
  draw_taken : ℕ → RunEvent
  probe_error : String → Text → RunEvent

pub data CheckState : Type 0 where
  prepared running finished stopped failed cancelled : CheckState

-- FINAL_CHECK_STATES
abbrev pub is_final : CheckState → Bool
is_final prepared = false
is_final running = false
is_final _ = true

pub record CheckEvent : Type 0 where
  pub seq : ℕ
  pub event : RunEvent

pub record CheckProgress : Type 0 where
  pub done : ℕ
  pub total : ℕ
  pub requests : ℕ
  pub tokens : ℕ

-- The events of a status are those from the `since` asked for on.
pub record CheckStatusResponse (R E : Type 0) : Type 0 where
  pub check_id : Text
  pub state : CheckState
  pub progress : CheckProgress
  pub events : List CheckEvent
  pub next_event : ℕ
  pub report : Option R
  pub error : Option E
