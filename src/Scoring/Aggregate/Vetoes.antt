-- ===== src/Scoring/Aggregate/Vetoes.antt =====
-- What a veto does to the log-likelihood ratios of packages/core/src/scoring/aggregate.ts.
use verif_ai.Common.{
  ◌≡◌, refl, ◌⊎◌, ◌∙◌, Bool, true, false, List, [], ◌∷◌, any, arith, Bool-cases, inl, inr,
}
use verif_ai.Types.Assessment.{IdentityFinding, identity_eq}
use verif_ai.Scoring.Numbers.{Numbers, Le, least, least-le_left, least-le_right, Le-refl}
use verif_ai.Scoring.Aggregate.{Signal, update, hold, veto_limit, vetoed, vetoes_of}

pub identity_eq→≡ : (a b : IdentityFinding) → identity_eq a b ≡ true → a ≡ b
identity_eq→≡ a b h = ground arith

abbrev pub names : IdentityFinding → List IdentityFinding → Bool
names finding vetoes = any (λ v. identity_eq v finding) vetoes

module _ (n : Numbers) where
  open n use {Num, le, minus_milli, le_trans}

  abbrev held_at : IdentityFinding → (IdentityFinding → Num) → IdentityFinding → Num
  held_at v held = update held v (least n (held v) (minus_milli veto_limit))

  held_at-le :
      (v : IdentityFinding) (held : IdentityFinding → Num) (f : IdentityFinding)
      → Le n (held_at v held f) (held f)
  held_at-le v held f = elim (Bool-cases (identity_eq v f)) [
    | inl e ↦ rw e (rw (identity_eq→≡ v f e) (least-le_left n (held f) (minus_milli veto_limit)))
    | inr e ↦ rw e (Le-refl n (held f))
  ]

  hold-le :
      (vetoes : List IdentityFinding) (held : IdentityFinding → Num) (f : IdentityFinding)
      → Le n (hold n vetoes held f) (held f)
  unfolding hold
  hold-le [] held f = Le-refl n (held f)
  hold-le (v ∷ vs) held f =
      le_trans _ (held_at v held f) _ (hold-le vs (held_at v held) f) (held_at-le v held f)

  hold-named :
      (vetoes : List IdentityFinding) (held : IdentityFinding → Num) (f : IdentityFinding)
      → names f vetoes ≡ true
      → Le n (hold n vetoes held f) (minus_milli veto_limit)
  unfolding hold
  hold-named [] held f h = absurd (cc)
  hold-named (v ∷ vs) held f h = elim (Bool-cases (identity_eq v f)) [
    | inl e ↦
        le_trans _ (held_at v held f) _ (hold-le vs (held_at v held) f)
          (rw e (least-le_right n (held v) (minus_milli veto_limit)))
    | inr e ↦ hold-named vs (held_at v held) f (rw e at h)
  ]

  hold-other :
      (vetoes : List IdentityFinding) (held : IdentityFinding → Num) (f : IdentityFinding)
      → names f vetoes ≡ false
      → hold n vetoes held f ≡ held f
  unfolding hold
  hold-other [] held f h = refl
  hold-other (v ∷ vs) held f h = elim (Bool-cases (identity_eq v f)) [
    | inl e ↦ absurd (ground arith)
    | inr e ↦ hold-other vs (held_at v held) f (rw e at h) ∙ rw e
  ]

  -- No veto lifts a finding; a finding that some signal vetoes is held at -6 or lower, whatever else
  -- was seen; and a finding that no signal vetoes keeps its sum.
  pub vetoed_lem :
      (llr : IdentityFinding → Num) (signals : List (Signal n)) (f : IdentityFinding)
      → Le n (vetoed n llr signals f) (llr f)
        × (((names f (vetoes_of n signals) ≡ true)
              × Le n (vetoed n llr signals f) (minus_milli veto_limit))
            ⊎ ((names f (vetoes_of n signals) ≡ false) × (vetoed n llr signals f ≡ llr f)))
  unfolding vetoed
  vetoed_lem llr signals f = (
    hold-le (vetoes_of n signals) llr f,
    elim (Bool-cases (names f (vetoes_of n signals))) [
      | inl e ↦ inl (e, hold-named (vetoes_of n signals) llr f e)
      | inr e ↦ inr (e, hold-other (vetoes_of n signals) llr f e)
    ],
  )
