-- ===== src/Daemon/Checks/Entries.antt =====
-- What an update, a new entry and a prune do to sums over the entries of
-- packages/cli/src/daemon/checks.ts, and to what holds of each.
use mathlib.Core.Path.{subst}
use verif_ai.Common.{
  ℕ, ◌+◌, ◌-◌, ◌≤◌, ◌≡◌, refl, ap, true, ◌&&◌, none, some, List, [], ◌∷◌, Text, text_eq, ltb, All,
  arith, Bool-cases, inl, inr,
}
use verif_ai.Types.Events.{is_final}
use verif_ai.Daemon.Checks.{Entry, find_entry, update_entry, set_entry, finals, prune_first, prune}

module _ {C R E : Type 0} where
  abbrev pub weigh : (Entry C R E → ℕ) → List (Entry C R E) → ℕ
  weigh w [] = 0
  weigh w (e ∷ entries) = w e + weigh w entries

  pub weigh-update :
      (w : Entry C R E → ℕ) (id : Text) (change : Entry C R E → Entry C R E)
      (entries : List (Entry C R E)) (e : Entry C R E)
      → find_entry id entries ≡ some e
      → weigh w (update_entry id change entries) + w e ≡ weigh w entries + w (change e)
  unfolding find_entry update_entry
  weigh-update w id change [] e h = absurd (ground arith)
  weigh-update w id change (x ∷ entries) e h = elim (Bool-cases (text_eq id x.check_id)) [
    | inl here ↦ let same : x ≡ e = ground arith in rw (here, same) (omega arith)
    | inr later ↦ rw later (omega (arith, weigh-update w id change entries e (rw later at h)))
  ]

  pub update_missing :
      (id : Text) (change : Entry C R E → Entry C R E) (entries : List (Entry C R E))
      → find_entry id entries ≡ none
      → update_entry id change entries ≡ entries
  unfolding find_entry update_entry
  update_missing id change [] h = refl
  update_missing id change (x ∷ entries) h = elim (Bool-cases (text_eq id x.check_id)) [
    | inl here ↦ absurd (ground arith)
    | inr later ↦ rw later (ap (◌∷◌ x) (update_missing id change entries (rw later at h)))
  ]

  pub All-update :
      (P : Entry C R E → Type 0) (id : Text) (change : Entry C R E → Entry C R E)
      (entries : List (Entry C R E))
      → All P entries
      → ((e : Entry C R E) → find_entry id entries ≡ some e → P e → P (change e))
      → All P (update_entry id change entries)
  unfolding find_entry update_entry
  All-update P id change [] h k = tt
  All-update P id change (x ∷ entries) h k = elim (Bool-cases (text_eq id x.check_id)) [
    | inl here ↦ rw here ((k x (rw here refl) h.0, h.1))
    | inr later ↦
        rw later ((h.0, All-update P id change entries h.1 (λ e found. k e (rw later found))))
  ]

  pub All-find :
      (P : Entry C R E → Type 0) (id : Text) (entries : List (Entry C R E)) (e : Entry C R E)
      → All P entries
      → find_entry id entries ≡ some e
      → P e
  unfolding find_entry
  All-find P id [] e h found = absurd (ground arith)
  All-find P id (x ∷ entries) e h found = elim (Bool-cases (text_eq id x.check_id)) [
    | inl here ↦ let same : x ≡ e = ground arith in subst P same h.0
    | inr later ↦ All-find P id entries e h.1 (rw later at found)
  ]

  pub All-set_entry :
      (P : Entry C R E → Type 0) (entry : Entry C R E) (entries : List (Entry C R E))
      → P entry
      → All P entries
      → All P (set_entry entry entries)
  unfolding set_entry
  All-set_entry P entry [] h k = (h, tt)
  All-set_entry P entry (x ∷ entries) h k = elim (Bool-cases (text_eq entry.check_id x.check_id)) [
    | inl here ↦ rw here ((h, k.1))
    | inr later ↦ rw later ((k.0, All-set_entry P entry entries h k.1))
  ]

  pub weigh-zero :
      (w : Entry C R E → ℕ) (entries : List (Entry C R E))
      → All (λ e. w e ≡ 0) entries
      → weigh w entries ≡ 0
  weigh-zero w [] h = refl
  weigh-zero w (x ∷ entries) h = omega (arith, weigh-zero w entries h.1)

  -- Where the entries weigh nothing, the new one is all that weighs.
  pub weigh-set_entry :
      (w : Entry C R E → ℕ) (entry : Entry C R E) (entries : List (Entry C R E))
      → All (λ e. w e ≡ 0) entries
      → weigh w (set_entry entry entries) ≡ w entry
  unfolding set_entry
  weigh-set_entry w entry [] h = omega arith
  weigh-set_entry w entry (x ∷ entries) h = elim (Bool-cases (text_eq entry.check_id x.check_id)) [
    | inl here ↦ rw here (omega (arith, weigh-zero w entries h.1))
    | inr later ↦ rw later (omega (arith, weigh-set_entry w entry entries h.1))
  ]

  -- Only entries in a final state are pruned.
  pub weigh-prune_first :
      (w : Entry C R E → ℕ) (n : ℕ) (entries : List (Entry C R E))
      → All (λ e. is_final e.state ≡ true → w e ≡ 0) entries
      → weigh w (prune_first n entries) ≡ weigh w entries
  unfolding prune_first
  weigh-prune_first w n [] h = refl
  weigh-prune_first w n (x ∷ entries) h = elim (Bool-cases (is_final x.state && ltb 0 n)) [
    | inl gone ↦
        rw gone (omega (arith, h.0 (ground arith), weigh-prune_first w (n - 1) entries h.1))
    | inr kept ↦ rw kept (omega (arith, weigh-prune_first w n entries h.1))
  ]

  pub All-prune_first :
      (P : Entry C R E → Type 0) (n : ℕ) (entries : List (Entry C R E))
      → All P entries
      → All P (prune_first n entries)
  unfolding prune_first
  All-prune_first P n [] h = tt
  All-prune_first P n (x ∷ entries) h = elim (Bool-cases (is_final x.state && ltb 0 n)) [
    | inl gone ↦ rw gone (All-prune_first P (n - 1) entries h.1)
    | inr kept ↦ rw kept ((h.0, All-prune_first P n entries h.1))
  ]

  finals-prune_first :
      (n : ℕ) (entries : List (Entry C R E)) → finals (prune_first n entries) ≡ finals entries - n
  unfolding prune_first finals
  finals-prune_first n [] = omega arith
  finals-prune_first n (x ∷ entries) = elim (Bool-cases (is_final x.state && ltb 0 n)) [
    | inl gone ↦ rw gone (ground (arith, finals-prune_first (n - 1) entries))
    | inr kept ↦ rw kept (ground (arith, finals-prune_first n entries))
  ]

  -- A prune leaves twenty entries in a final state at most.
  pub finals-prune : (entries : List (Entry C R E)) → finals (prune entries) ≤ 20
  unfolding prune
  finals-prune entries = omega (arith, finals-prune_first (finals entries - 20) entries)
