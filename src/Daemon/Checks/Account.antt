-- ===== src/Daemon/Checks/Account.antt =====
-- The checks that the store of packages/cli/src/daemon/checks.ts has discarded, executed and holds, and
-- that dropping, starting and cancelling one keeps their sum.
use verif_ai.Common.{
  ℕ, ◌+◌, ◌≡◌, refl, sym, ap, ◌∙◌, true, false, ◌||◌, not, Option, none, some, List, [], ◌∷◌, ◌++◌,
  Text, All, arith, Bool-cases, Option-cases, inl, inr,
}
use verif_ai.Types.Events.{is_final}
use verif_ai.Daemon.Checks.{
  Entry, Store, find_entry, update_entry, is_prepared, is_running, dropped, drop_check, started,
  aborted_entry, start_with, checks_in, start_found, start_check, cancel_found, cancel,
}
use verif_ai.Daemon.Checks.Entries.{weigh, weigh-update, update_missing}
use verif_ai.Daemon.Checks.Invariant.{IsConsistent, Unprepared, is_some}

-- The sum of a weight over checks.
abbrev pub sum : {C : Type 0} → (C → ℕ) → List C → ℕ
sum w [] = 0
sum w (c ∷ checks) = w c + sum w checks

pub sum-append : {C : Type 0} (w : C → ℕ) (xs ys : List C) → sum w (xs ++ ys) ≡ sum w xs + sum w ys
sum-append w [] ys = omega arith
sum-append w (x ∷ xs) ys = omega (arith, sum-append w xs ys)

module _ {C R E : Type 0} (w : C → ℕ) where
  abbrev pub held_weight : Entry C R E → ℕ
  held_weight e = sum w (checks_in e.held)

  -- What was discarded, executed and is held.
  abbrev pub account : Store C R E → ℕ
  account s = sum w s.discarded + sum w s.executed + weigh held_weight s.entries

  pub Unprepared-weight : (e : Entry C R E) → IsConsistent e → Unprepared e → held_weight e ≡ 0
  Unprepared-weight e c u = holds_none e.held (sym c.held_when ∙ u)
    where
      holds_none : (o : Option C) → is_some o ≡ false → sum w (checks_in o) ≡ 0
      holds_none none h = refl
      holds_none (some x) h = cc

  pub final_weights :
      (entries : List (Entry C R E))
      → All IsConsistent entries
      → All (λ e. is_final e.state ≡ true → held_weight e ≡ 0) entries
  final_weights [] h = tt
  final_weights (e ∷ entries) h =
      (λ final. Unprepared-weight e h.0 (final_unprepared e final), final_weights entries h.1)
    where
      final_unprepared : (x : Entry C R E) → is_final x.state ≡ true → Unprepared x
      final_unprepared x f = ground arith

  pub update_same :
      (id : Text) (change : Entry C R E → Entry C R E) (entries : List (Entry C R E))
      → ((e : Entry C R E) → held_weight (change e) ≡ held_weight e)
      → weigh held_weight (update_entry id change entries) ≡ weigh held_weight entries
  update_same id change entries h = elim (Option-cases (find_entry id entries)) [
    | inl missing ↦ rw (update_missing id change entries missing) refl
    | inr (e, found) ↦ omega (arith, weigh-update held_weight id change entries e found, h e)
  ]

  pub drop_check-account : (id : Text) (s : Store C R E) → account (drop_check id s) ≡ account s
  unfolding drop_check
  drop_check-account id s = elim (Option-cases (find_entry id s.entries)) [
    | inl missing ↦
        rw (missing, update_missing id dropped s.entries missing)
          (omega (arith, sum-append w s.discarded []))
    | inr (e, found) ↦ rw found (
        omega (
          arith,
          sum-append w s.discarded (checks_in e.held),
          weigh-update held_weight id dropped s.entries e found,
        ))
  ]

  start_with-account :
      (id : Text) (s : Store C R E) (e : Entry C R E) (held : Option C)
      → find_entry id s.entries ≡ some e
      → e.held ≡ held
      → account (start_with id e held s).0 ≡ account s
  start_with-account id s e none found h = refl
  start_with-account id s e (some check) found h =
      elim (Bool-cases (not (is_prepared e.state) || s.closed)) [
        | inl refused ↦ rw refused refl
        | inr granted ↦ rw granted (
            omega (
              arith,
              sum-append w s.executed (check ∷ []),
              weigh-update held_weight id started s.entries e found,
              ap (λ o. sum w (checks_in o)) h,
            ))
      ]

  pub start-account : (id : Text) (s : Store C R E) → account (start_check id s).0 ≡ account s
  unfolding start_check
  start-account id s = found_start (find_entry id s.entries) refl
    where
      found_start :
          (o : Option (Entry C R E))
          → find_entry id s.entries ≡ o
          → account (start_found id o s).0 ≡ account s
      found_start none h = refl
      found_start (some e) h = start_with-account id s e e.held h refl

  pub cancel-account : (id : Text) (s : Store C R E) → account (cancel id s) ≡ account s
  unfolding cancel
  cancel-account id s = found_cancel (find_entry id s.entries)
    where
      found_cancel : (o : Option (Entry C R E)) → account (cancel_found id o s) ≡ account s
      found_cancel none = refl
      found_cancel (some e) = elim (Bool-cases (is_prepared e.state)) [
        | inl p ↦ rw p (drop_check-account id s)
        | inr u ↦ rw u (elim (Bool-cases (is_running e.state)) [
          | inl r ↦ rw r (omega (arith, update_same id aborted_entry s.entries (λ x. refl)))
          | inr f ↦ rw f refl
        ])
      ]
