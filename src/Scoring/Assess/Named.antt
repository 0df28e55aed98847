-- ===== src/Scoring/Assess/Named.antt =====
-- Which identity packages/core/src/scoring/assess.ts may name.
use verif_ai.Common.{
  ◌≡◌, ◌≢◌, inl, inr, refl, Bool, true, false, not, List, [], ◌∷◌, All, map, sym, ◌∙◌, filter,
  arith, Bool-cases,
}
use verif_ai.Types.Assessment.{
  IdentityFinding, matches_claim, unresolved, identity_findings, adverse_identity_findings,
  ConsistencyFinding, fractional,
}
use verif_ai.Scoring.Numbers.{Numbers}
use verif_ai.Scoring.Aggregate.{greatest_from, leaders_of, only_or, most_probable}
use verif_ai.Scoring.Assess.{has, first_or, ruled_out, excluded_by, identity_of}

abbrev Other : IdentityFinding → Type 0
Other finding = finding ≢ matches_claim

All-filter :
    (p : IdentityFinding → Bool) (fs : List IdentityFinding)
    → All Other fs
    → All Other (filter p fs)
All-filter p [] h = h
All-filter p (f ∷ fs) h = ground (arith, All-filter p fs)

module _ (n : Numbers) where
  open n use {Num, le, sub, billionth}

  first_or-Other : (fs : List IdentityFinding) → All Other fs → Other (first_or n unresolved fs)
  first_or-Other [] h = ground arith
  first_or-Other (f ∷ fs) h = h.0

  only_or-Other : (fs : List IdentityFinding) → All Other fs → Other (only_or n unresolved fs)
  only_or-Other [] h = ground arith
  only_or-Other (f ∷ []) h = h.0
  only_or-Other (f ∷ g ∷ fs) h = ground arith

  leaders_Other :
      (posterior : IdentityFinding → Num) (fs : List IdentityFinding)
      → All Other fs
      → All Other (leaders_of n posterior fs)
  unfolding leaders_of
  leaders_Other posterior fs h =
      All-filter (λ f. le (sub (greatest_from n (map posterior fs)) billionth) (posterior f)) fs h

  ruled_out-Other :
      (posterior : IdentityFinding → Num) (vetoes : List IdentityFinding)
      → Other (ruled_out n posterior vetoes)
  unfolding ruled_out
  ruled_out-Other posterior vetoes =
      let standing = filter (λ f. not (has vetoes f)) adverse_identity_findings in
      first_or-Other (leaders_of n posterior standing) (
        leaders_Other posterior standing
          (All-filter (λ f. not (has vetoes f)) adverse_identity_findings (ground arith)))

  mixture_Other :
      (posterior : IdentityFinding → Num)
      → Other (most_probable n posterior identity_findings unresolved (excluded_by n fractional))
  unfolding most_probable
  mixture_Other posterior =
      let others = filter (λ f. not (excluded_by n fractional f)) identity_findings in
      only_or-Other (leaders_of n posterior others) (leaders_Other posterior others (ground arith))

  identity_of-vetoed :
      (posterior : IdentityFinding → Num) (consistency : ConsistencyFinding)
      (vetoes : List IdentityFinding)
      → has vetoes matches_claim ≡ true
      → identity_of n posterior consistency vetoes ≡ ruled_out n posterior vetoes
  unfolding identity_of
  identity_of-vetoed posterior consistency vetoes e = rw e refl

  identity_of-mixture :
      (posterior : IdentityFinding → Num) (consistency : ConsistencyFinding)
      (vetoes : List IdentityFinding)
      → has vetoes matches_claim ≡ false
      → consistency ≡ fractional
      → identity_of n posterior consistency vetoes
        ≡ most_probable n posterior identity_findings unresolved (excluded_by n fractional)
  unfolding identity_of
  identity_of-mixture posterior consistency vetoes e same = rw (e, same) refl

  -- When the reading of the identity is that the endpoint serves the claimed model: no signal has
  -- vetoed that, and the draws are no mixture.
  pub identity_of-matches_claim :
      (posterior : IdentityFinding → Num) (consistency : ConsistencyFinding)
      (vetoes : List IdentityFinding)
      → identity_of n posterior consistency vetoes ≡ matches_claim
      → (has vetoes matches_claim ≡ false) × (consistency ≢ fractional)
  identity_of-matches_claim posterior consistency vetoes h =
      elim (Bool-cases (has vetoes matches_claim)) [
        | inl e ↦ absurd (
            ruled_out-Other posterior vetoes
              (sym (identity_of-vetoed posterior consistency vetoes e) ∙ h))
        | inr e ↦ (
          e,
          λ same.
              mixture_Other posterior
                (sym (identity_of-mixture posterior consistency vetoes e same) ∙ h),
        )
      ]
