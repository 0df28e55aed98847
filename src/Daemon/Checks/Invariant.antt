-- ===== src/Daemon/Checks/Invariant.antt =====
-- What holds of the store of packages/cli/src/daemon/checks.ts between any two calls.
pub mod Operations
use verif_ai.Common.{
  ℕ, suc, ◌+◌, ◌-◌, ◌≤◌, ◌≡◌, refl, sym, ◌∙◌, Bool, true, false, ◌||◌, not, Option, none, some,
  List, [], ◌∷◌, ◌++◌, Text, ltb, if◌then◌else◌, length, length-append, All, arith, Bool-cases,
  Option-cases, inl, inr, ltb→lt,
}
use verif_ai.Types.Events.{RunEvent, CheckState, finished, stopped, failed, is_final, CheckEvent}
use verif_ai.Daemon.Checks.{
  Entry, Store, Preparation, ready, not_ready, CheckOutcome, has_finished, was_cancelled,
  was_stopped, has_failed, find_entry, update_entry, set_entry, is_active, is_prepared, is_running,
  finals, prune_first, prune, logged, dropped, drop_check, drop_prepared, recorded, settled,
  started, aborted_entry, new_entry, begin_create, admit_check, start_with, start_found,
  cancel_found, record_event, settle_check,
}
use verif_ai.Daemon.Checks.Calls.{is_run}
use verif_ai.Daemon.Checks.Entries.{
  weigh, weigh-update, update_missing, All-update, All-set_entry, weigh-set_entry,
  weigh-prune_first, All-prune_first, finals-prune,
}

abbrev pub is_some : {A : Type 0} → Option A → Bool
is_some none = false
is_some (some a) = true

abbrev is_finished : CheckState → Bool
is_finished finished = true
is_finished _ = false

abbrev has_error : CheckState → Bool
has_error stopped = true
has_error failed = true
has_error _ = false

-- Each event carries its place in the log.
abbrev pub Numbered : ℕ → List CheckEvent → Type 0
Numbered n [] = Unit
Numbered n (e ∷ events) = (e.seq ≡ n) × Numbered (suc n) events

Numbered-append :
    (n m : ℕ) (events : List CheckEvent) (event : RunEvent)
    → m ≡ n + length events
    → Numbered n events
    → Numbered n (events ++ record { seq = m; event = event } ∷ [])
Numbered-append n m [] event e h = (omega arith, tt)
Numbered-append n m (x ∷ events) event e h =
    (h.0, Numbered-append (suc n) m events event (omega arith) h.1)

pub some_same : {A : Type 0} {a b : A} → some a ≡ some b → a ≡ b
some_same h = ground arith

log_after :
    (event : RunEvent) (log : List CheckEvent)
    → Numbered 0 log
    → length log ≤ 10000
    → Numbered 0 (logged event log) × (length (logged event log) ≤ 10000)
log_after event log h k = elim (Bool-cases (ltb (length log) 10000)) [
  | inl room ↦ rw room (
      (
        Numbered-append 0 (length log) log event (omega arith) h,
        omega (
          arith,
          ltb→lt (length log) 10000 room,
          length-append log (record { seq = length log; event = event } ∷ []),
        ),
      ))
  | inr full ↦ rw full ((h, k))
]

module _ {C R E : Type 0} where
  -- An entry holds a check and a timer exactly while it is prepared, a controller exactly while it
  -- runs, and a report or an error exactly in the states that have one; its log is numbered from 0
  -- and within its limit.
  pub record IsConsistent (e : Entry C R E) : Type 0 where
    pub held_when : is_prepared e.state ≡ is_some e.held
    pub timed_when : is_prepared e.state ≡ e.expiry
    pub controlled_when : is_running e.state ≡ is_some e.controller
    pub reported_when : is_finished e.state ≡ is_some e.report
    pub failed_when : has_error e.state ≡ is_some e.error
    pub numbered : Numbered 0 e.log
    pub kept : length e.log ≤ 10000

  abbrev pub live : Entry C R E → ℕ
  live e = if is_final e.state then 0 else 1

  abbrev pub Unprepared : Entry C R E → Type 0
  Unprepared e = is_prepared e.state ≡ false

  -- One check is prepared or runs at most; 21 are kept at most; and none is prepared once closed.
  pub record IsValid (s : Store C R E) : Type 0 where
    pub one_live : weigh live s.entries ≤ 1
    pub few : length s.entries ≤ 21
    pub consistent : All IsConsistent s.entries
    pub shut : s.closed ≡ true → All Unprepared s.entries

  pub dropped-IsConsistent :
      (e : Entry C R E) → is_prepared e.state ≡ true → IsConsistent e → IsConsistent (dropped e)
  dropped-IsConsistent e p c = ground arith

  pub started-IsConsistent :
      (e : Entry C R E) → is_prepared e.state ≡ true → IsConsistent e → IsConsistent (started e)
  started-IsConsistent e p c = ground arith

  pub aborted-IsConsistent : (e : Entry C R E) → IsConsistent e → IsConsistent (aborted_entry e)
  aborted-IsConsistent e c = ground arith

  pub settled-IsConsistent :
      (outcome : CheckOutcome R E) (e : Entry C R E)
      → is_running e.state ≡ true
      → IsConsistent e
      → IsConsistent (settled outcome e)
  settled-IsConsistent (has_finished report requests tokens) e r c = ground arith
  settled-IsConsistent (was_cancelled requests tokens) e r c = ground arith
  settled-IsConsistent (was_stopped error) e r c = ground arith
  settled-IsConsistent (has_failed error) e r c = ground arith

  pub recorded-IsConsistent :
      (event : RunEvent) (e : Entry C R E) → IsConsistent e → IsConsistent (recorded event e)
  recorded-IsConsistent event e c =
      let (numbered, kept) = log_after event e.log c.numbered c.kept in
      record {
        held_when = c.held_when;
        timed_when = c.timed_when;
        controlled_when = c.controlled_when;
        reported_when = c.reported_when;
        failed_when = c.failed_when;
        numbered = numbered;
        kept = kept;
      }

  length-update :
      (id : Text) (change : Entry C R E → Entry C R E) (entries : List (Entry C R E))
      → length (update_entry id change entries) ≡ length entries
  unfolding update_entry
  length-update id change [] = refl
  length-update id change (x ∷ entries) = ground (arith, length-update id change entries)

  length-parts :
      (entries : List (Entry C R E)) → length entries ≡ finals entries + weigh live entries
  unfolding finals
  length-parts [] = omega arith
  length-parts (x ∷ entries) = ground (arith, length-parts entries)

  -- A change of one entry that keeps it consistent, and makes none live or prepared.
  pub update-IsValid :
      (s : Store C R E) (id : Text) (change : Entry C R E → Entry C R E)
      → IsValid s
      → ((e : Entry C R E)
          → find_entry id s.entries ≡ some e
          → IsConsistent e
          → IsConsistent (change e))
      → ((e : Entry C R E) → find_entry id s.entries ≡ some e → live (change e) ≤ live e)
      → ((e : Entry C R E)
          → find_entry id s.entries ≡ some e
          → Unprepared e
          → Unprepared (change e))
      → IsValid (record s { entries = update_entry id change s.entries })
  update-IsValid s id change v consistent fewer shut = record {
    one_live = elim (Option-cases (find_entry id s.entries)) [
      | inl missing ↦ rw (update_missing id change s.entries missing) v.one_live
      | inr (e, found) ↦
          omega (arith, weigh-update live id change s.entries e found, fewer e found, v.one_live)
    ];
    few = omega (arith, length-update id change s.entries, v.few);
    consistent = All-update IsConsistent id change s.entries v.consistent consistent;
    shut = λ closed. All-update Unprepared id change s.entries (v.shut closed) shut;
  }

  final_live :
      (entries : List (Entry C R E)) → All (λ e. is_final e.state ≡ true → live e ≡ 0) entries
  final_live [] = tt
  final_live (x ∷ entries) = (λ final. rw final refl, final_live entries)

  pub prune-IsValid :
      (s : Store C R E)
      → weigh live s.entries ≤ 1
      → All IsConsistent s.entries
      → (s.closed ≡ true → All Unprepared s.entries)
      → IsValid (record s { entries = prune s.entries })
  unfolding prune
  prune-IsValid s one consistent shut =
      let n = finals s.entries - 20 in
      let same = weigh-prune_first live n s.entries (final_live s.entries) in
      record {
        one_live = omega (arith, same);
        few = omega (arith, same, length-parts (prune_first n s.entries), finals-prune s.entries);
        consistent = All-prune_first IsConsistent n s.entries consistent;
        shut = λ closed. All-prune_first Unprepared n s.entries (shut closed);
      }
