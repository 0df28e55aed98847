-- ===== src/Scoring/Aggregate/Posteriors.antt =====
-- The posteriors of packages/core/src/scoring/aggregate.ts are probabilities.
use verif_ai.Common.{arith, ℕ, ◌≡◌, refl, ap, ◌∙◌, List, [], ◌∷◌, map, Elem, Bool-cases, inl, inr}
use mathlib.Core.Path.{subst}
use verif_ai.Types.Assessment.{
  IdentityFinding, PlatformFinding, TranslationFinding, identity_findings, platform_findings,
  translation_findings, matches_claim, same_vendor_cheaper, different_vendor, not_a_live_model,
  unresolved, first_party, partner_cloud, unplaced, direct, translated, untraced,
}
use verif_ai.Scoring.Numbers.{Numbers, Le, IsUnit, greatest-eq_left, greatest-eq_right, Le-refl}
use verif_ai.Scoring.Aggregate.{
  Llrs, posteriors_of, identity_prior, platform_prior, translation_prior, greatest_of, sum_from,
  posterior_of, log_of, weight_of,
}

module _ (n : Numbers) where
  open n use {
    Num, le, add, sub, div, milli, pow10, le_total, le_trans, add_mono, zero-add, add-zero,
    sub_self, pow10_nonneg, pow10-zero, div_nonneg, div_le_one,
  }

  module _ {F : Type 0} (f : F → Num) where
    greatest_of-attained :
        (t : F) (l : List F) → (g : F) × Elem g (t ∷ l) × (greatest_of n (f t) (map f l) ≡ f g)
    unfolding greatest_of
    greatest_of-attained t [] = (t, inl refl, refl)
    greatest_of-attained t (x ∷ l) = elim (Bool-cases (le (f t) (f x))) [
      | inl e ↦
          let (g, there, same) = greatest_of-attained x l in
          (
            g,
            inr there,
            ap (λ u. greatest_of n u (map f l)) (greatest-eq_right n (f t) (f x) e) ∙ same,
          )
      | inr e ↦
          let (g, there, same) = greatest_of-attained t l in
          (
            g,
            elim there [ inl here ↦ inl here | inr m ↦ inr (inr m) ],
            ap (λ u. greatest_of n u (map f l)) (greatest-eq_left n (f t) (f x) e) ∙ same,
          )
    ]

    sum_from-ge_total :
        (total : Num) (l : List F)
        → ((g : F) → Le n (milli 0) (f g))
        → Le n total (sum_from n total (map f l))
    unfolding sum_from
    sum_from-ge_total total [] h = Le-refl n total
    sum_from-ge_total total (x ∷ l) h =
        le_trans _ (add total (f x)) _
          (subst (λ u. Le n u (add total (f x))) (add-zero total)
            (add_mono total total (milli 0) (f x) (Le-refl n total) (h x)))
          (sum_from-ge_total (add total (f x)) l h)

    sum_from-ge_term :
        (total : Num) (l : List F) (g : F)
        → Le n (milli 0) total
        → ((g : F) → Le n (milli 0) (f g))
        → Elem g l
        → Le n (f g) (sum_from n total (map f l))
    unfolding sum_from
    sum_from-ge_term total [] g t h m = absurd (m.1)
    sum_from-ge_term total (x ∷ l) g t h (inl e) =
        le_trans (f g) (add total (f x)) _
          (rw e (
            subst (λ u. Le n u (add total (f x))) (zero-add (f x))
              (add_mono (milli 0) total (f x) (f x) t (Le-refl n (f x)))))
          (sum_from-ge_total (add total (f x)) l h)
    sum_from-ge_term total (x ∷ l) g t h (inr m) =
        sum_from-ge_term (add total (f x)) l g
          (subst (λ u. Le n u (add total (f x))) (zero-add (milli 0))
            (add_mono (milli 0) total (milli 0) (f x) t (h x)))
          h m

  module _ {F : Type 0} (prior : F → ℕ) (llr : F → Num) (t : F) (l : List F) where
    weight_nonneg : (g : F) → Le n (milli 0) (weight_of n prior llr (t ∷ l) g)
    weight_nonneg g = pow10_nonneg _

    -- The most probable finding weighs 1, so the weights add up to 1 at least.
    total_ge_one :
        Le n (milli 1000) (sum_from n (milli 0) (map (weight_of n prior llr (t ∷ l)) (t ∷ l)))
    total_ge_one =
        let (g, there, same) = greatest_of-attained (log_of n prior llr (t ∷ l)) t l in
        subst (λ u. Le n u (sum_from n (milli 0) (map (weight_of n prior llr (t ∷ l)) (t ∷ l))))
          (ap (λ top. pow10 (sub (log_of n prior llr (t ∷ l) g) top)) same
            ∙ ap pow10 (sub_self _)
            ∙ pow10-zero)
          (sum_from-ge_term (weight_of n prior llr (t ∷ l)) (milli 0) (t ∷ l) g
            (Le-refl n (milli 0)) weight_nonneg there)

    -- Whatever the priors and the ratios, the posterior of every candidate is between 0 and 1.
    pub posterior_of-IsUnit :
        (g : F) → Elem g (t ∷ l) → IsUnit n (posterior_of n prior llr (t ∷ l) g)
    unfolding posterior_of
    posterior_of-IsUnit g there = (
      div_nonneg _ _ (weight_nonneg g) total_ge_one,
      div_le_one _ _
          (sum_from-ge_term (weight_of n prior llr (t ∷ l)) (milli 0) (t ∷ l) g
            (Le-refl n (milli 0)) weight_nonneg there)
          total_ge_one,
    )

  identity_listed : (g : IdentityFinding) → Elem g identity_findings
  identity_listed g = ground arith

  platform_listed : (g : PlatformFinding) → Elem g platform_findings
  platform_listed g = ground arith

  translation_listed : (g : TranslationFinding) → Elem g translation_findings
  translation_listed g = ground arith

  -- Whatever the log-likelihood ratios, every posterior of every finding on the identity, the
  -- platform and the translation axis is between 0 and 1.
  pub posteriors_of-IsUnit :
      (llr : Llrs n)
      → ((g : IdentityFinding) → IsUnit n ((posteriors_of n llr).identity g))
        × ((g : PlatformFinding) → IsUnit n ((posteriors_of n llr).platform g))
        × ((g : TranslationFinding) → IsUnit n ((posteriors_of n llr).translation g))
  unfolding posteriors_of
  posteriors_of-IsUnit llr = (
    λ g.
        posterior_of-IsUnit identity_prior llr.identity matches_claim
          (same_vendor_cheaper ∷ different_vendor ∷ not_a_live_model ∷ unresolved ∷ []) g
          (identity_listed g),
    λ g.
        posterior_of-IsUnit platform_prior llr.platform first_party (partner_cloud ∷ unplaced ∷ [])
          g (platform_listed g),
    λ g.
        posterior_of-IsUnit translation_prior llr.translation direct (translated ∷ untraced ∷ []) g
          (translation_listed g),
  )
