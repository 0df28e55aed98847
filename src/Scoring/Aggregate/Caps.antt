-- ===== src/Scoring/Aggregate/Caps.antt =====
-- The caps of packages/core/src/scoring/aggregate.ts hold, whatever the signals.
use verif_ai.Common.{◌≡◌, refl, Option, List, [], ◌∷◌, All}
use verif_ai.Scoring.Numbers.{Numbers, clamp, Within, clamp-Within, clamp-Within_inner, Le, Le-refl}
use verif_ai.Scoring.Aggregate.{
  Ratio, heuristic, heuristic_family_cap, family_cap, Signal, Family, family_sums, family_llr,
  sum_families, by_family, axis_llr,
}

module _ (n : Numbers) where
  open n use {
    Num, le, add, milli, minus_milli, le_trans, milli_mono, minus_milli_mono, add_mono, zero-add,
  }

  -- The caps of the families, summed as the source sums their contributions.
  abbrev pub ceiling_of : Num → List (Family n) → Num
  ceiling_of total [] = total
  ceiling_of total (f ∷ fs) = ceiling_of (add total (milli (family_cap f.family))) fs

  abbrev pub floor_of : Num → List (Family n) → Num
  floor_of total [] = total
  floor_of total (f ∷ fs) = floor_of (add total (minus_milli (family_cap f.family))) fs

  pub family_llr-Within :
      (ratio : Signal n → Option (Ratio Num)) (f : Family n)
      → Within n (family_cap f.family) (family_llr n ratio f)
  unfolding family_llr
  family_llr-Within ratio f = clamp-Within n _ (family_cap f.family)

  sum_families_bounds :
      (ratio : Signal n → Option (Ratio Num)) (fs : List (Family n)) (low total high : Num)
      → Le n low total
      → Le n total high
      → Le n (floor_of low fs) (sum_families n ratio total fs)
        × Le n (sum_families n ratio total fs) (ceiling_of high fs)
  unfolding sum_families
  sum_families_bounds ratio [] low total high h k = (h, k)
  sum_families_bounds ratio (f ∷ fs) low total high h k =
      let (a, b) = family_llr-Within ratio f in
      sum_families_bounds ratio fs _ _ _ (add_mono _ _ _ _ h a) (add_mono _ _ _ _ k b)

  -- Before vetoes, the log-likelihood ratio of every finding on every axis lies between minus and
  -- plus the sum of the caps of the families that have a signal, however many signals there are and
  -- whatever ratios they name.
  pub axis_llr_bounds :
      {F : Type 0} (signals : List (Signal n)) (table : Signal n → F → Option (Ratio Num))
      (finding : F)
      → Le n
          (floor_of (milli 0) (by_family n signals))
          (axis_llr n (by_family n signals) table finding)
        × Le n
            (axis_llr n (by_family n signals) table finding)
            (ceiling_of (milli 0) (by_family n signals))
  unfolding axis_llr
  axis_llr_bounds signals table finding =
      sum_families_bounds (λ s. table s finding) (by_family n signals) (milli 0) (milli 0) (milli 0)
        (Le-refl n (milli 0)) (Le-refl n (milli 0))

  abbrev pub IsHeuristic : Signal n → Type 0
  IsHeuristic s = s.calibration ≡ heuristic

  family_sums-heuristic :
      (ratio : Signal n → Option (Ratio Num)) (signals : List (Signal n)) (a b : Num)
      → All IsHeuristic signals
      → (family_sums n ratio a b signals).0 ≡ a
  unfolding family_sums
  family_sums-heuristic ratio [] a b h = refl
  family_sums-heuristic ratio (s ∷ rest) a b (p, h) =
      rw (p, family_sums) (family_sums-heuristic ratio rest a _ h)

  -- A family of heuristic signals alone moves a finding by at most 0.3, however many they are.
  pub family_llr-heuristic :
      (ratio : Signal n → Option (Ratio Num)) (f : Family n)
      → All IsHeuristic f.members
      → Within n heuristic_family_cap (family_llr n ratio f)
  unfolding family_llr
  family_llr-heuristic ratio f h =
      let (calibrated, heuristics) = family_sums n ratio (milli 0) (milli 0) f.members in
      let none_calibrated : calibrated ≡ milli 0 =
        family_sums-heuristic ratio f.members (milli 0) (milli 0) h in
      clamp-Within_inner n (add calibrated (clamp n heuristics heuristic_family_cap))
        heuristic_family_cap (family_cap f.family)
        (rw (none_calibrated, zero-add) (clamp-Within n heuristics heuristic_family_cap))
