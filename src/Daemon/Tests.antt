-- ===== src/Daemon/Tests.antt =====
-- Runs of packages/cli/src/daemon/checks.ts at concrete calls.
use verif_ai.Common.{ℕ, ◌≡◌, ◌+◌, refl, true, some, List, [], ◌∷◌, codes, map, text_eq}
use verif_ai.Types.Events.{cancelled, draw_taken}
use verif_ai.Daemon.Checks.{
  close_store, begin_create, cancel, record_event, start_check, end_create, settle_check, Store,
  ready, was_cancelled,
}
use verif_ai.Daemon.Checks.Calls.{
  Call, begins, prepares, starts, cancels, records, settles, closes, empty_store, run, brought,
}
use verif_ai.Daemon.Checks.Entries.{weigh}
use verif_ai.Daemon.Checks.Invariant.{IsValid}
use verif_ai.Daemon.Checks.Reach.{run-empty_store}
use verif_ai.Daemon.Checks.Keys.{run-brought}
use verif_ai.Daemon.Checks.Account.{sum, held_weight}

-- A first check is replaced by a second, which runs and is cancelled; a third is prepared when the
-- store closes.
abbrev calls : List (Call ℕ ℕ ℕ)
calls =
    begins
    ∷ prepares (codes "a") (some (ready 1 7))
    ∷ begins
    ∷ prepares (codes "b") (some (ready 2 7))
    ∷ starts (codes "b")
    ∷ begins
    ∷ records (codes "b") (draw_taken 1)
    ∷ cancels (codes "b")
    ∷ settles (codes "b") (was_cancelled 3 90)
    ∷ begins
    ∷ prepares (codes "c") (some (ready 3 7))
    ∷ closes
    ∷ []

abbrev after : Store ℕ ℕ ℕ
after = run empty_store calls

states_after : map (λ e. e.state) after.entries ≡ cancelled ∷ cancelled ∷ cancelled ∷ []
unfolding run text_eq close_store begin_create cancel record_event start_check end_create
    settle_check
states_after = refl

checks_after : after.discarded ≡ 1 ∷ 3 ∷ []
unfolding run text_eq close_store begin_create cancel record_event start_check end_create
    settle_check
checks_after = refl

runs_after : after.executed ≡ 2 ∷ []
unfolding run text_eq close_store begin_create cancel record_event start_check end_create
    settle_check
runs_after = refl

run-empty_store_example : IsValid after
run-empty_store_example = run-empty_store calls

run-brought_example :
    (sum (λ c. c) after.discarded
        + sum (λ c. c) after.executed
        + weigh (held_weight (λ c. c)) after.entries
      ≡ sum (λ c. c) (brought empty_store calls))
    × (after.closed ≡ true → weigh (held_weight (λ c. c)) after.entries ≡ 0)
run-brought_example = run-brought (λ c. c) calls
