-- ===== src/Scoring/Dispersion/Readable.antt =====
-- The consistency finding of packages/core/src/scoring/dispersion.ts, in terms of the draws.
use verif_ai.Common.{
  ℕ, ◌≤◌, ◌<◌, ◌≡◌, ◌↔◌, inl, inr, refl, ap, sym, ◌∙◌, some, List, [], ◌∷◌, filter, length, Elem,
  arith,
}
use verif_ai.Types.Assessment.{fractional, undetermined}
use verif_ai.Types.Run.{DrawOutcome, agree, disagree, lost, excluded, DrawRecord, DilutionRun}
use verif_ai.Scoring.Numbers.{Numbers}
use verif_ai.Scoring.Dispersion.{is_disagree, is_readable, epsilon_of, consistency_of}

-- A draw with this outcome stands in the list.
abbrev pub Shows : DrawOutcome → List DrawRecord → Type 0
Shows outcome draws = (draw : DrawRecord) × Elem draw draws × (draw.outcome ≡ outcome)

abbrev count_readable : List DrawRecord → ℕ
count_readable draws = length (filter is_readable draws)

abbrev count_disagree : List DrawRecord → ℕ
count_disagree draws = length (filter is_disagree (filter is_readable draws))

later : (o : DrawOutcome) (d : DrawRecord) (ds : List DrawRecord) → Shows o ds → Shows o (d ∷ ds)
later o d ds (draw, there, same) = (draw, inr there, same)

count_disagree_le : (ds : List DrawRecord) → count_disagree ds ≤ count_readable ds
count_disagree_le [] = omega arith
count_disagree_le (d ∷ ds) = ground (arith, count_disagree_le ds)

count_disagree_pos : (ds : List DrawRecord) → 0 < count_disagree ds → Shows disagree ds
count_disagree_pos [] h = absurd (omega arith)
count_disagree_pos (d ∷ ds) h =
    let recurse = count_disagree_pos ds in
    elim (d.outcome) as (λ o. d.outcome ≡ o → Shows disagree (d ∷ ds)) [
      | disagree ↦ λ e. (d, inl refl, e)
      | agree ↦ λ e. later disagree d ds (recurse (ground arith))
      | lost ↦ λ e. later disagree d ds (recurse (ground arith))
      | excluded ↦ λ e. later disagree d ds (recurse (ground arith))
    ]
      refl

disagree_counts : (ds : List DrawRecord) → Shows disagree ds → 0 < count_disagree ds
disagree_counts [] (d, there, e) = absurd (there.1)
disagree_counts (d ∷ ds) (draw, inl here, e) =
    let shown : d.outcome ≡ disagree = sym (ap (λ x. x.outcome) here) ∙ e in rw shown (omega arith)
disagree_counts (d ∷ ds) (draw, inr there, e) = ground (arith, disagree_counts ds (draw, there, e))

agrees_left : (ds : List DrawRecord) → count_disagree ds < count_readable ds → Shows agree ds
agrees_left [] h = absurd (omega arith)
agrees_left (d ∷ ds) h =
    let recurse = agrees_left ds in
    elim (d.outcome) as (λ o. d.outcome ≡ o → Shows agree (d ∷ ds)) [
      | agree ↦ λ e. (d, inl refl, e)
      | disagree ↦ λ e. later agree d ds (recurse (ground arith))
      | lost ↦ λ e. later agree d ds (recurse (ground arith))
      | excluded ↦ λ e. later agree d ds (recurse (ground arith))
    ]
      refl

agree_leaves : (ds : List DrawRecord) → Shows agree ds → count_disagree ds < count_readable ds
agree_leaves [] (d, there, e) = absurd (there.1)
agree_leaves (d ∷ ds) (draw, inl here, e) =
    let shown : d.outcome ≡ agree = sym (ap (λ x. x.outcome) here) ∙ e in
    rw shown (omega (arith, count_disagree_le ds))
agree_leaves (d ∷ ds) (draw, inr there, e) = ground (arith, agree_leaves ds (draw, there, e))

module _ (n : Numbers) where
  counts :
      (run : DilutionRun)
      → ((consistency_of n (some (epsilon_of n run)) ≡ undetermined)
          ↔ (count_readable run.draws < 5))
        × ((consistency_of n (some (epsilon_of n run)) ≡ fractional) ↔ (
            (5 ≤ count_readable run.draws)
            × (0 < count_disagree run.draws)
            × (count_disagree run.draws < count_readable run.draws)))
  unfolding consistency_of epsilon_of
  counts run = (ground arith, ground arith)

  -- The finding on the consistency axis from any run of draws. It is undetermined exactly when fewer
  -- than five draws can be read, and fractional exactly when five or more can be read, one of which
  -- agrees with the claimed model and one of which does not. Draws that were lost or excluded have no
  -- part in it.
  pub consistency_of-epsilon_of :
      (run : DilutionRun)
      → ((consistency_of n (some (epsilon_of n run)) ≡ undetermined)
          ↔ (length (filter is_readable run.draws) < 5))
        × ((consistency_of n (some (epsilon_of n run)) ≡ fractional) ↔ (
            (5 ≤ length (filter is_readable run.draws))
            × Shows agree run.draws
            × Shows disagree run.draws))
  consistency_of-epsilon_of run =
      let (undecided, (to, from)) = counts run in
      (
        undecided,
        (
          λ e.
              let (some_read, d, q) = to e in
              (some_read, agrees_left run.draws q, count_disagree_pos run.draws d),
          λ (some_read, a, d).
              from (some_read, disagree_counts run.draws d, agree_leaves run.draws a),
        ),
      )
