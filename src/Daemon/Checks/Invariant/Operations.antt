-- ===== src/Daemon/Checks/Invariant/Operations.antt =====
-- That each operation of the store of packages/cli/src/daemon/checks.ts keeps it valid.
use verif_ai.Common.{
  ℕ, ◌≤◌, ◌≡◌, refl, sym, ◌∙◌, true, false, ◌||◌, not, Option, none, some, List, [], ◌∷◌, ◌++◌,
  Text, All, arith, Bool-cases, inl, inr,
}
use verif_ai.Types.Events.{RunEvent}
use verif_ai.Daemon.Checks.{
  Entry, Store, Preparation, ready, not_ready, CheckOutcome, has_finished, was_cancelled,
  was_stopped, has_failed, find_entry, update_entry, set_entry, is_active, is_prepared, is_running,
  dropped, drop_check, drop_prepared, recorded, settled, started, aborted_entry, new_entry,
  begin_create, admit_check, start_with, start_found, cancel_found, record_event, settle_check,
}
use verif_ai.Daemon.Checks.Calls.{is_run}
use verif_ai.Daemon.Checks.Entries.{weigh, All-set_entry, weigh-set_entry}
use verif_ai.Daemon.Checks.Invariant.{
  some_same, IsConsistent, live, Unprepared, IsValid, dropped-IsConsistent, started-IsConsistent,
  aborted-IsConsistent, settled-IsConsistent, recorded-IsConsistent, update-IsValid, prune-IsValid,
}

module _ {C R E : Type 0} where
  pub drop_check-IsValid :
      (id : Text) (s : Store C R E)
      → IsValid s
      → ((e : Entry C R E)
          → find_entry id s.entries ≡ some e
          → IsConsistent e
          → is_prepared e.state ≡ true)
      → IsValid (drop_check id s)
  unfolding drop_check
  drop_check-IsValid id s v h =
      let w =
        update-IsValid s id dropped v (λ e found c. dropped-IsConsistent e (h e found c) c)
          (λ e found. omega arith) (λ e found u. refl) in
      record { one_live = w.one_live; few = w.few; consistent = w.consistent; shut = w.shut }

  prepared_live : (e : Entry C R E) → is_prepared e.state ≡ true → live (started e) ≤ live e
  prepared_live e p = ground arith

  started-IsValid :
      (id : Text) (s : Store C R E) (e : Entry C R E) (check : C)
      → IsValid s
      → find_entry id s.entries ≡ some e
      → is_prepared e.state ≡ true
      → IsValid (record s {
        entries = update_entry id started s.entries;
        executed = s.executed ++ check ∷ [];
      })
  started-IsValid id s e check v found p =
      let the_one : (x : Entry C R E)
          → find_entry id s.entries ≡ some x
          → is_prepared x.state ≡ true =
        λ x there. rw (some_same (sym there ∙ found)) p in
      let w =
        update-IsValid s id started v (λ x there c. started-IsConsistent x (the_one x there) c)
          (λ x there. prepared_live x (the_one x there)) (λ x there u. refl) in
      record { one_live = w.one_live; few = w.few; consistent = w.consistent; shut = w.shut }

  start_held :
      (id : Text) (s : Store C R E) (e : Entry C R E) (held : Option C)
      → IsValid s
      → find_entry id s.entries ≡ some e
      → IsValid (start_with id e held s).0
  start_held id s e none v found = v
  start_held id s e (some check) v found =
      elim (Bool-cases (not (is_prepared e.state) || s.closed)) [
        | inl refused ↦ rw refused v
        | inr granted ↦ rw granted (started-IsValid id s e check v found (ground arith))
      ]

  pub start_found-IsValid :
      (id : Text) (s : Store C R E) (o : Option (Entry C R E))
      → IsValid s
      → find_entry id s.entries ≡ o
      → IsValid (start_found id o s).0
  start_found-IsValid id s none v found = v
  start_found-IsValid id s (some e) v found = start_held id s e e.held v found

  pub cancel_found-IsValid :
      (id : Text) (s : Store C R E) (o : Option (Entry C R E))
      → IsValid s
      → find_entry id s.entries ≡ o
      → IsValid (cancel_found id o s)
  cancel_found-IsValid id s none v found = v
  cancel_found-IsValid id s (some e) v found = elim (Bool-cases (is_prepared e.state)) [
    | inl p ↦ rw p (drop_check-IsValid id s v (λ x there c. rw (some_same (sym there ∙ found)) p))
    | inr u ↦ rw u (elim (Bool-cases (is_running e.state)) [
      | inl r ↦ rw r (
          update-IsValid s id aborted_entry v (λ x there c. aborted-IsConsistent x c)
            (λ x there. omega arith) (λ x there u. u))
      | inr f ↦ rw f v
    ])
  ]

  pub record_event-IsValid :
      (id : Text) (event : RunEvent) (s : Store C R E)
      → IsValid s
      → IsValid (record_event id event s)
  unfolding record_event
  record_event-IsValid id event s v =
      update-IsValid s id (recorded event) v (λ e found c. recorded-IsConsistent event e c)
        (λ e found. omega arith) (λ e found u. u)

  settled-live : (outcome : CheckOutcome R E) (e : Entry C R E) → live (settled outcome e) ≤ live e
  settled-live (has_finished report requests tokens) e = omega arith
  settled-live (was_cancelled requests tokens) e = omega arith
  settled-live (was_stopped error) e = omega arith
  settled-live (has_failed error) e = omega arith

  settled-Unprepared :
      (outcome : CheckOutcome R E) (e : Entry C R E) → Unprepared (settled outcome e)
  settled-Unprepared (has_finished report requests tokens) e = refl
  settled-Unprepared (was_cancelled requests tokens) e = refl
  settled-Unprepared (was_stopped error) e = refl
  settled-Unprepared (has_failed error) e = refl

  pub settled-IsValid :
      (id : Text) (outcome : CheckOutcome R E) (s : Store C R E)
      → IsValid s
      → is_run (find_entry id s.entries) ≡ true
      → IsValid (record s { entries = update_entry id (settled outcome) s.entries })
  settled-IsValid id outcome s v r =
      update-IsValid s id (settled outcome) v
        (λ e found c. settled-IsConsistent outcome e (rw found at r) c)
        (λ e found. settled-live outcome e) (λ e found u. settled-Unprepared outcome e)

  pub settle-IsValid :
      (id : Text) (outcome : CheckOutcome R E) (s : Store C R E)
      → IsValid s
      → is_run (find_entry id s.entries) ≡ true
      → IsValid (settle_check id outcome s)
  unfolding settle_check
  settle-IsValid id outcome s v r =
      let w = settled-IsValid id outcome s v r in
      prune-IsValid (record s { entries = update_entry id (settled outcome) s.entries }) w.one_live
        w.consistent w.shut

  pub drop_prepared-IsConsistent :
      (entries : List (Entry C R E))
      → All IsConsistent entries
      → All IsConsistent (drop_prepared entries)
  unfolding drop_prepared
  drop_prepared-IsConsistent [] h = tt
  drop_prepared-IsConsistent (e ∷ entries) h = elim (Bool-cases (is_prepared e.state)) [
    | inl p ↦ rw p ((dropped-IsConsistent e p h.0, drop_prepared-IsConsistent entries h.1))
    | inr u ↦ rw u ((h.0, drop_prepared-IsConsistent entries h.1))
  ]

  pub idle :
      (e : Entry C R E) → is_prepared e.state ≡ false → is_running e.state ≡ false → live e ≡ 0
  idle e p r = ground arith

  drop_prepared-idle :
      (entries : List (Entry C R E))
      → is_active entries ≡ false
      → All (λ e. live e ≡ 0) (drop_prepared entries)
  unfolding drop_prepared is_active
  drop_prepared-idle [] h = tt
  drop_prepared-idle (e ∷ entries) h = elim (Bool-cases (is_prepared e.state)) [
    | inl p ↦ rw p ((refl, drop_prepared-idle entries (ground arith)))
    | inr u ↦ rw u ((idle e u (ground arith), drop_prepared-idle entries (ground arith)))
  ]

  pub begin_create-IsValid : (s : Store C R E) → IsValid s → IsValid (begin_create s).0
  unfolding begin_create
  begin_create-IsValid s v = elim (Bool-cases (s.closed || s.preparing || is_active s.entries)) [
    | inl no_room ↦ rw no_room v
    | inr room ↦
        rw room
          (record { one_live = v.one_live; few = v.few; consistent = v.consistent; shut = v.shut })
  ]

  pub new_entry-IsConsistent :
      (id : Text) (check : C) (total : ℕ)
      → IsConsistent {C = C} {R = R} {E = E} (new_entry id check total)
  new_entry-IsConsistent id check total = ground arith

  pub admit-IsValid :
      (id : Text) (preparation : Preparation C E) (s : Store C R E)
      → IsValid s
      → IsValid (admit_check id preparation s).0
  unfolding admit_check
  admit-IsValid id (not_ready error) s v = v
  admit-IsValid id (ready check total) s v = elim (Bool-cases (s.closed || is_active s.entries)) [
    | inl no_room ↦
        rw no_room
          (record { one_live = v.one_live; few = v.few; consistent = v.consistent; shut = v.shut })
    | inr room ↦
        let entry = new_entry id check total in
        let dropped_all = drop_prepared s.entries in
        let one : weigh live (set_entry entry dropped_all) ≡ 1 =
          weigh-set_entry live entry dropped_all (drop_prepared-idle s.entries (ground arith)) in
        let w =
          prune-IsValid (record s { entries = set_entry entry dropped_all }) (omega arith)
            (All-set_entry IsConsistent entry dropped_all (new_entry-IsConsistent id check total)
              (drop_prepared-IsConsistent s.entries v.consistent))
            (λ closed. absurd (ground arith)) in
        rw room
          (record { one_live = w.one_live; few = w.few; consistent = w.consistent; shut = w.shut })
  ]
