-- ===== src/Web/Tests.antt =====
-- Runs of packages/web/src/lib/poll.ts at concrete statuses.
use verif_ai.Common.{
  ℕ, ◌+◌, ◌≡◌, refl, min, false, none, some, List, [], ◌∷◌, codes, length, text_eq, arith, All,
}
use verif_ai.Types.Run.{agree, lost}
use verif_ai.Types.Events.{RunEvent, draw, draw_taken, running, CheckEvent, CheckStatusResponse}
use verif_ai.Daemon.Checks.{Entry, find_entry, status_of, status_for}
use verif_ai.Web.Poll.{
  RunState, initial_run_state, apply_status, last_taken, Round, failed_with, network, rejected,
  poll_check,
}
use verif_ai.Web.Poll.Sync.{InSync, apply_status-status_of}
use verif_ai.Web.Poll.Ends.{Unaborted, EndsWell, poll_check_lem}

abbrev event : ℕ → RunEvent → CheckEvent
event seq e = record { seq = seq; event = e }

abbrev entry : Entry ℕ ℕ ℕ
entry = record {
  check_id = codes "a";
  state = running;
  progress = record { done = 0; total = 1; requests = 3; tokens = 30 };
  held = none;
  controller = some false;
  expiry = false;
  report = none;
  error = none;
  log = event 0 (draw_taken 1) ∷ event 1 (draw 2 lost) ∷ event 2 (draw 1 agree) ∷ [];
}

abbrev page : RunState ℕ ℕ
page = initial_run_state (codes "a") 1

page_is_InSync : InSync entry.log 0 page
unfolding last_taken
page_is_InSync = record {
  reached = omega arith;
  seen = refl;
  asks = refl;
  shows = refl;
  taken = refl;
}

entry_is_found : find_entry page.check_id (entry ∷ []) ≡ some entry
unfolding find_entry text_eq
entry_is_found = refl

apply_status-status_of_example :
    (status : CheckStatusResponse ℕ ℕ) × (status_of page.check_id page.next_event (entry ∷ [])
      ≡ some status)
    × InSync entry.log (min (0 + 500) (length entry.log)) (apply_status page status)
    × ((apply_status page status).state ≡ running)
    × ((apply_status page status).progress ≡ entry.progress)
apply_status-status_of_example =
    apply_status-status_of (entry ∷ []) entry 0 page entry_is_found (refl, (refl, (refl, tt))) refl
      page_is_InSync

-- The draws are kept by their number.
draws_in_order :
    (apply_status page (status_for (codes "a") 0 entry)).draws
    ≡ record { draw = 1; outcome = agree } ∷ record { draw = 2; outcome = lost } ∷ []
unfolding apply_status text_eq
draws_in_order = refl

abbrev failed_round : Round ℕ ℕ
failed_round = record {
  aborted_before = false;
  status = failed_with network;
  report = failed_with network;
  aborted_after = false;
}

abbrev rounds : List (Round ℕ ℕ)
rounds =
    failed_round ∷ failed_round ∷ failed_round ∷ failed_round ∷ failed_round ∷ failed_round ∷ []

six_failures_reject : poll_check page 0 rounds ≡ rejected network
unfolding poll_check
six_failures_reject = refl

unaborted : All Unaborted rounds
unaborted =
    let both : Unaborted failed_round = (refl, refl) in
    (both, (both, (both, (both, (both, (both, tt))))))

poll_check_lem_example : EndsWell 0 rounds (poll_check page 0 rounds)
poll_check_lem_example = poll_check_lem rounds page unaborted
