-- ===== src/Daemon/Checks/Reach.antt =====
-- The store of packages/cli/src/daemon/checks.ts after any sequence of calls.
use verif_ai.Common.{
  ◌≤◌, ◌≡◌, refl, ◌∙◌, Bool, true, false, Option, none, some, List, [], ◌∷◌, Text, if◌then◌else◌,
  length, All, map, arith, Bool-cases, inl, inr,
}
use verif_ai.Daemon.Checks.{
  Entry, Store, Preparation, find_entry, is_prepared, is_running, drop_check, end_create,
  start_check, cancel, close_entry, close_store,
}
use verif_ai.Daemon.Checks.Calls.{
  Call, begins, prepares, starts, expires, cancels, records, settles, closes, empty_store, is_timed,
  is_run, step, run,
}
use verif_ai.Daemon.Checks.Entries.{weigh}
use verif_ai.Daemon.Checks.Invariant.{
  IsConsistent, IsValid, live, Unprepared, dropped-IsConsistent, aborted-IsConsistent,
}
use verif_ai.Daemon.Checks.Invariant.Operations.{
  start_found-IsValid, cancel_found-IsValid, drop_check-IsValid, record_event-IsValid,
  settle-IsValid, begin_create-IsValid, admit-IsValid,
}

module _ {C R E : Type 0} where
  end_create-IsValid :
      (id : Text) (preparation : Option (Preparation C E)) (s : Store C R E)
      → IsValid s
      → IsValid (end_create id preparation s).0
  unfolding end_create
  end_create-IsValid id none s v = record {
    one_live = v.one_live;
    few = v.few;
    consistent = v.consistent;
    shut = v.shut;
  }
  end_create-IsValid id (some preparation) s v =
      let w = admit-IsValid id preparation s v in
      record { one_live = w.one_live; few = w.few; consistent = w.consistent; shut = w.shut }

  close_entry-IsConsistent : (e : Entry C R E) → IsConsistent e → IsConsistent (close_entry e)
  close_entry-IsConsistent e c = elim (Bool-cases (is_prepared e.state)) [
    | inl p ↦ rw p (dropped-IsConsistent e p c)
    | inr u ↦ rw u (elim (Bool-cases (is_running e.state)) [
      | inl r ↦ rw r (aborted-IsConsistent e c)
      | inr f ↦ rw f c
    ])
  ]

  close_entry_lem : (e : Entry C R E) → (live (close_entry e) ≤ live e) × Unprepared (close_entry e)
  close_entry_lem e = elim (Bool-cases (is_prepared e.state)) [
    | inl p ↦ rw p ((omega arith, refl))
    | inr u ↦ rw u (elim (Bool-cases (is_running e.state)) [
      | inl r ↦ rw r ((omega arith, u))
      | inr f ↦ rw f ((omega arith, u))
    ])
  ]

  closed_entries :
      (entries : List (Entry C R E))
      → All IsConsistent entries
      → All IsConsistent (map close_entry entries)
        × All Unprepared (map close_entry entries)
        × (weigh live (map close_entry entries) ≤ weigh live entries)
        × (length (map close_entry entries) ≡ length entries)
  closed_entries [] h = (tt, tt, omega arith, refl)
  closed_entries (e ∷ entries) h =
      let (consistent, shut, fewer, same) = closed_entries entries h.1 in
      let (less, done) = close_entry_lem e in
      ((close_entry-IsConsistent e h.0, consistent), (done, shut), omega arith, omega arith)

  close-IsValid : (s : Store C R E) → IsValid s → IsValid (close_store s)
  unfolding close_store
  close-IsValid s v =
      let (consistent, shut, fewer, same) = closed_entries s.entries v.consistent in
      record {
        one_live = omega (arith, v.one_live);
        few = omega (arith, v.few);
        consistent = consistent;
        shut = λ closed. shut;
      }

  start-IsValid : (id : Text) (s : Store C R E) → IsValid s → IsValid (start_check id s).0
  unfolding start_check
  start-IsValid id s v = start_found-IsValid id s (find_entry id s.entries) v refl

  cancel-IsValid : (id : Text) (s : Store C R E) → IsValid s → IsValid (cancel id s)
  unfolding cancel
  cancel-IsValid id s v = cancel_found-IsValid id s (find_entry id s.entries) v refl

  expire-IsValid :
      (id : Text) (s : Store C R E)
      → IsValid s
      → is_timed (find_entry id s.entries) ≡ true
      → IsValid (drop_check id s)
  expire-IsValid id s v h = drop_check-IsValid id s v (λ e found c. c.timed_when ∙ rw found at h)

  if-IsValid :
      (test : Bool) {x y : Store C R E}
      → (test ≡ true → IsValid x)
      → IsValid y
      → IsValid (if test then x else y)
  if-IsValid true h v = h refl
  if-IsValid false h v = v

  pub step-IsValid : (s : Store C R E) (call : Call C R E) → IsValid s → IsValid (step s call)
  unfolding step
  step-IsValid s begins v = begin_create-IsValid s v
  step-IsValid s (prepares id preparation) v =
      if-IsValid s.preparing (λ going. end_create-IsValid id preparation s v) v
  step-IsValid s (starts id) v = start-IsValid id s v
  step-IsValid s (expires id) v = elim (Bool-cases (is_timed (find_entry id s.entries))) [
    | inl timed ↦ rw timed (expire-IsValid id s v timed)
    | inr idle ↦ rw idle v
  ]
  step-IsValid s (cancels id) v = cancel-IsValid id s v
  step-IsValid s (records id event) v = record_event-IsValid id event s v
  step-IsValid s (settles id outcome) v = elim (Bool-cases (is_run (find_entry id s.entries))) [
    | inl runs ↦ rw runs (settle-IsValid id outcome s v runs)
    | inr idle ↦ rw idle v
  ]
  step-IsValid s closes v = close-IsValid s v

  pub run-IsValid :
      (s : Store C R E) (calls : List (Call C R E)) → IsValid s → IsValid (run s calls)
  unfolding run
  run-IsValid s [] v = v
  run-IsValid s (call ∷ calls) v = run-IsValid (step s call) calls (step-IsValid s call v)

  pub empty-IsValid : IsValid (empty_store {C = C} {R = R} {E = E})
  empty-IsValid = record {
    one_live = omega arith;
    few = omega arith;
    consistent = tt;
    shut = λ closed. tt;
  }

  -- After any calls, timers and runs from an empty store on, in any order: one check is prepared or
  -- running at most; 21 checks are kept at most; none is prepared once the store is closed; and each
  -- entry holds a check and a timer exactly while it is prepared, a controller exactly while it runs,
  -- a report exactly once it has finished and an error exactly once it was stopped or failed, with a
  -- log of 10000 events at most, numbered from 0.
  pub run-empty_store : (calls : List (Call C R E)) → IsValid (run empty_store calls)
  run-empty_store calls = run-IsValid empty_store calls empty-IsValid
