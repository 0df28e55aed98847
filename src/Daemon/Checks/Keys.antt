-- ===== src/Daemon/Checks/Keys.antt =====
-- Where the checks of packages/cli/src/daemon/checks.ts go: a check that holds an API key is discarded,
-- given to a run, or held by a prepared entry.
use verif_ai.Common.{
  ℕ, ◌+◌, ◌-◌, ◌≡◌, refl, Bool, true, false, ◌||◌, Option, none, some, List, [], ◌∷◌, Text,
  if◌then◌else◌, All, map, arith, Bool-cases, inl, inr,
}
use verif_ai.Types.Events.{RunEvent}
use verif_ai.Daemon.Checks.{
  Entry, Store, Preparation, ready, not_ready, CheckOutcome, has_finished, was_cancelled,
  was_stopped, has_failed, find_entry, update_entry, set_entry, is_active, is_prepared, is_running,
  finals, prune, drop_check, drop_prepared, recorded, settled, new_entry, begin_create, admit_check,
  end_create, held_prepared, checks_in, record_event, settle_check, close_entry, close_store,
}
use verif_ai.Daemon.Checks.Calls.{
  Call, begins, prepares, starts, expires, cancels, records, settles, closes, empty_store, is_timed,
  is_run, step, run, brought, brought_by, check_of,
}
use verif_ai.Daemon.Checks.Entries.{weigh, All-set_entry, weigh-set_entry, weigh-prune_first}
use verif_ai.Daemon.Checks.Invariant.{IsConsistent, IsValid, Unprepared}
use verif_ai.Daemon.Checks.Invariant.Operations.{
  drop_prepared-IsConsistent, new_entry-IsConsistent, settled-IsValid,
}
use verif_ai.Daemon.Checks.Reach.{empty-IsValid, step-IsValid, run-empty_store}
use verif_ai.Daemon.Checks.Account.{
  sum, sum-append, held_weight, account, Unprepared-weight, final_weights, update_same,
  drop_check-account, start-account, cancel-account,
}

module _ {C R E : Type 0} (w : C → ℕ) where
  prune-weight :
      (entries : List (Entry C R E))
      → All IsConsistent entries
      → weigh (held_weight w) (prune entries) ≡ weigh (held_weight w) entries
  unfolding prune
  prune-weight entries h =
      weigh-prune_first (held_weight w) (finals entries - 20) entries ((final_weights w) entries h)

  settled_held :
      (outcome : CheckOutcome R E) (e : Entry C R E)
      → (held_weight w) (settled outcome e) ≡ (held_weight w) e
  settled_held (has_finished report requests tokens) e = refl
  settled_held (was_cancelled requests tokens) e = refl
  settled_held (was_stopped error) e = refl
  settled_held (has_failed error) e = refl

  -- Dropping what is prepared leaves nothing held.
  drop_prepared-account :
      (entries : List (Entry C R E))
      → All IsConsistent entries
      → (sum w (held_prepared entries) ≡ weigh (held_weight w) entries)
        × All (λ e. (held_weight w) e ≡ 0) (drop_prepared entries)
  unfolding held_prepared drop_prepared
  drop_prepared-account [] h = (refl, tt)
  drop_prepared-account (e ∷ entries) h =
      let (same, rest) = drop_prepared-account entries h.1 in
      elim (Bool-cases (is_prepared e.state)) [
        | inl p ↦
            rw p (
              (
                omega (arith, sum-append w (checks_in e.held) (held_prepared entries)),
                (refl, rest),
              ))
        | inr u ↦
            rw u (
              (omega (arith, (Unprepared-weight w) e h.0 u), ((Unprepared-weight w) e h.0 u, rest)))
      ]

  admit-account :
      (id : Text) (preparation : Preparation C E) (s : Store C R E)
      → All IsConsistent s.entries
      → (account w) (admit_check id preparation s).0
        ≡ (account w) s + sum w (check_of (some preparation))
  unfolding admit_check
  admit-account id (not_ready error) s h = omega arith
  admit-account id (ready check total) s h = elim (Bool-cases (s.closed || is_active s.entries)) [
    | inl no_room ↦ rw no_room (omega (arith, sum-append w s.discarded (check ∷ [])))
    | inr room ↦
        let entry = new_entry id check total in
        let (same, rest) = drop_prepared-account s.entries h in
        let dropped_all = drop_prepared s.entries in
        let consistent =
          All-set_entry IsConsistent entry dropped_all (new_entry-IsConsistent id check total)
            (drop_prepared-IsConsistent s.entries h) in
        rw room (
          omega (
            arith,
            sum-append w s.discarded (held_prepared s.entries),
            same,
            prune-weight (set_entry entry dropped_all) consistent,
            weigh-set_entry (held_weight w) entry dropped_all rest,
          ))
  ]

  end_create-account :
      (id : Text) (preparation : Option (Preparation C E)) (s : Store C R E)
      → All IsConsistent s.entries
      → (account w) (end_create id preparation s).0 ≡ (account w) s + sum w (check_of preparation)
  unfolding end_create
  end_create-account id none s h = omega arith
  end_create-account id (some preparation) s h = admit-account id preparation s h

  one_closed : (e : Entry C R E) → IsConsistent e → (held_weight w) (close_entry e) ≡ 0
  one_closed e c = elim (Bool-cases (is_prepared e.state)) [
    | inl p ↦ rw p refl
    | inr u ↦ rw u (elim (Bool-cases (is_running e.state)) [
      | inl r ↦ rw r ((Unprepared-weight w) e c u)
      | inr f ↦ rw f ((Unprepared-weight w) e c u)
    ])
  ]

  close-account :
      (s : Store C R E) → All IsConsistent s.entries → (account w) (close_store s) ≡ (account w) s
  unfolding close_store
  close-account s h = omega (
    arith,
    sum-append w s.discarded (held_prepared s.entries),
    (drop_prepared-account s.entries h).0,
    closed_weight s.entries h,
  )
    where
      closed_weight :
          (entries : List (Entry C R E))
          → All IsConsistent entries
          → weigh (held_weight w) (map close_entry entries) ≡ 0
      closed_weight [] k = refl
      closed_weight (e ∷ entries) k = omega (arith, one_closed e k.0, closed_weight entries k.1)

  settle-account :
      (id : Text) (outcome : CheckOutcome R E) (s : Store C R E)
      → All IsConsistent (update_entry id (settled outcome) s.entries)
      → (account w) (settle_check id outcome s) ≡ (account w) s
  unfolding settle_check
  settle-account id outcome s h = omega (
    arith,
    prune-weight (update_entry id (settled outcome) s.entries) h,
    (update_same w) id (settled outcome) s.entries (settled_held outcome),
  )

  if_same :
      (test : Bool) (x y : Store C R E) {n : ℕ}
      → (test ≡ true → (account w) x ≡ n)
      → (account w) y ≡ n
      → (account w) (if test then x else y) ≡ n
  if_same true x y h k = h refl
  if_same false x y h k = k

  prepares-account :
      (test : Bool) (id : Text) (preparation : Option (Preparation C E)) (s : Store C R E)
      → All IsConsistent s.entries
      → (account w) (if test then (end_create id preparation s).0 else s)
        ≡ (account w) s + sum w (if test then check_of preparation else [])
  prepares-account true id preparation s h = end_create-account id preparation s h
  prepares-account false id preparation s h = omega arith

  begin_create-account : (s : Store C R E) → (account w) (begin_create s).0 ≡ (account w) s
  unfolding begin_create
  begin_create-account s = elim (Bool-cases (s.closed || s.preparing || is_active s.entries)) [
    | inl no_room ↦ rw no_room refl
    | inr room ↦ rw room refl
  ]

  record_event-account :
      (id : Text) (event : RunEvent) (s : Store C R E)
      → (account w) (record_event id event s) ≡ (account w) s
  unfolding record_event
  record_event-account id event s =
      omega (arith, (update_same w) id (recorded event) s.entries (λ e. refl))

  step-account :
      (s : Store C R E) (call : Call C R E)
      → IsValid s
      → (account w) (step s call) ≡ (account w) s + sum w (brought_by s call)
  unfolding step
  step-account s begins v = omega (arith, begin_create-account s)
  step-account s (prepares id preparation) v =
      prepares-account s.preparing id preparation s v.consistent
  step-account s (starts id) v = omega (arith, (start-account w) id s)
  step-account s (expires id) v =
      if_same (is_timed (find_entry id s.entries)) (drop_check id s) s
        (λ t. omega (arith, (drop_check-account w) id s)) (omega arith)
  step-account s (cancels id) v = omega (arith, (cancel-account w) id s)
  step-account s (records id event) v = omega (arith, record_event-account id event s)
  step-account s (settles id outcome) v =
      if_same (is_run (find_entry id s.entries)) (settle_check id outcome s) s
        (λ r.
          omega (arith, settle-account id outcome s (settled-IsValid id outcome s v r).consistent))
        (omega arith)
  step-account s closes v = omega (arith, close-account s v.consistent)

  run-account :
      (s : Store C R E) (calls : List (Call C R E))
      → IsValid s
      → (account w) (run s calls) ≡ (account w) s + sum w (brought s calls)
  unfolding run brought
  run-account s [] v = omega arith
  run-account s (call ∷ calls) v = omega (
    arith,
    run-account (step s call) calls (step-IsValid s call v),
    step-account s call v,
    sum-append w (brought_by s call) (brought (step s call) calls),
  )

  shut_weights :
      (entries : List (Entry C R E))
      → All IsConsistent entries
      → All Unprepared entries
      → weigh (held_weight w) entries ≡ 0
  shut_weights [] h u = refl
  shut_weights (e ∷ entries) h u =
      omega (arith, (Unprepared-weight w) e h.0 u.0, shut_weights entries h.1 u.1)

-- Of the checks that calls bring to an empty store, by any weight of them, each is discarded, given
-- to a run, or held by an entry, and only one of these; once the store is closed, none is held.
pub run-brought :
    {C R E : Type 0} (w : C → ℕ) (calls : List (Call C R E))
    → (sum w (run empty_store calls).discarded
          + sum w (run empty_store calls).executed
          + weigh (held_weight w) (run empty_store calls).entries
        ≡ sum w (brought empty_store calls))
      × ((run empty_store calls).closed ≡ true
          → weigh (held_weight w) (run empty_store calls).entries ≡ 0)
run-brought w calls =
    let v = run-empty_store calls in
    (
      omega (arith, run-account w empty_store calls empty-IsValid),
      λ closed. shut_weights w (run empty_store calls).entries v.consistent (v.shut closed),
    )
