-- ===== src/Planner/Plan/Order.antt =====
-- The order of a plan, `ordered` of packages/core/src/planner/plan.ts.
use verif_ai.Common.{
  ℕ, ◌+◌, ◌≤◌, ◌≡◌, refl, sym, ap, ◌∙◌, Bool, true, false, not, Option, some, List, [], ◌∷◌, ◌++◌,
  filter, length, All, Text, arith, Bool-cases, inl, inr, if◌then◌else◌, ltb,
}
use verif_ai.Planner.Shuffle.{seeded_shuffle}
use verif_ai.Planner.Shuffle.Permutes.{total, Shuffles, seeded_shuffle-Shuffles}
use verif_ai.Planner.Probe.{AnyProbe, is_dilution_probe}
use verif_ai.Planner.Plan.{ordered}
use verif_ai.Planner.Plan.Selects.{total-append}

abbrev pub IsDilution : AnyProbe → Type 0
IsDilution probe = is_dilution_probe probe ≡ true

abbrev pub IsOther : AnyProbe → Type 0
IsOther probe = is_dilution_probe probe ≡ false

-- One for each probe of group F.
abbrev one_each : AnyProbe → ℕ
one_each probe = if is_dilution_probe probe then 1 else 0

All-IsOther : (probes : List AnyProbe) → total one_each probes ≡ 0 → All IsOther probes
All-IsOther [] h = tt
All-IsOther (p ∷ ps) h = ground (arith, All-IsOther ps)

filter-IsOther :
    (probes : List AnyProbe) → total one_each (filter (λ p. not (is_dilution_probe p)) probes) ≡ 0
filter-IsOther [] = refl
filter-IsOther (p ∷ ps) = ground (arith, filter-IsOther ps)

filter-IsDilution : (probes : List AnyProbe) → All IsDilution (filter is_dilution_probe probes)
filter-IsDilution [] = tt
filter-IsDilution (p ∷ ps) = ground (arith, filter-IsDilution ps)

total-halves :
    (weight : AnyProbe → ℕ) (probes : List AnyProbe)
    → total weight (filter (λ p. not (is_dilution_probe p)) probes)
        + total weight (filter is_dilution_probe probes)
      ≡ total weight probes
total-halves weight [] = refl
total-halves weight (p ∷ ps) = ground (arith, total-halves weight ps)

-- The probes of other groups, shuffled or not.
abbrev arranged : Bool → Text → List AnyProbe → Option (List AnyProbe)
arranged shuffle seed rest = if shuffle then seeded_shuffle rest seed else some rest

arranged-Shuffles :
    (shuffle : Bool) (seed : Text) (rest : List AnyProbe)
    → Shuffles rest (arranged shuffle seed rest)
arranged-Shuffles true seed rest = seeded_shuffle-Shuffles rest seed
arranged-Shuffles false seed rest = (rest, refl, record { long = refl; heavy = λ weight. refl })

some_inj : {A : Type 0} {a b : A} → some a ≡ some b → a ≡ b
some_inj h = ground arith

module _ (admitted : List AnyProbe) (shuffle : Bool) (seed : Text) (probes : List AnyProbe) where
  abbrev rest_of : List AnyProbe
  rest_of = filter (λ p. not (is_dilution_probe p)) admitted

  abbrev dilution_of : List AnyProbe
  dilution_of = filter is_dilution_probe admitted

  abbrev front_of : Shuffles rest_of (arranged shuffle seed rest_of)
  front_of = arranged-Shuffles shuffle seed rest_of

  ordered_eq :
      ltb 1 (length dilution_of) ≡ false
      → ordered admitted shuffle seed ≡ some (front_of.0 ++ dilution_of)
  unfolding ordered
  ordered_eq e = rw (e, front_of.1) refl

  ordered-some :
      ordered admitted shuffle seed ≡ some probes
      → (probes ≡ front_of.0 ++ dilution_of) × (length dilution_of ≤ 1)
  unfolding ordered
  ordered-some h = elim (Bool-cases (ltb 1 (length dilution_of))) [
    | inl e ↦ absurd (ground arith)
    | inr e ↦ (some_inj (sym h ∙ ordered_eq e), ground arith)
  ]

  -- The order of the run: every probe of another group first, then at most one of group F; and the
  -- probes are those admitted, each as often.
  pub ordered_lem :
      ordered admitted shuffle seed ≡ some probes
      → ((front last : List AnyProbe) × (probes ≡ front ++ last)
          × All IsOther front
          × All IsDilution last
          × (length last ≤ 1))
        × ((weight : AnyProbe → ℕ) → total weight probes ≡ total weight admitted)
  ordered_lem h =
      let (same, few) = ordered-some h in
      let (front, _, permutes) = front_of in
      (
        (
          front,
          dilution_of,
          same,
          All-IsOther front (permutes.heavy one_each ∙ filter-IsOther admitted),
          filter-IsDilution admitted,
          few,
        ),
        λ weight.
            ap (total weight) same
            ∙ total-append weight front dilution_of
            ∙ ap (λ t. t + total weight dilution_of) (permutes.heavy weight)
            ∙ total-halves weight admitted,
      )
