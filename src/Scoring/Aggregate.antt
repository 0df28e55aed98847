-- ===== src/Scoring/Aggregate.antt =====
-- packages/core/src/scoring/aggregate.ts: signals into posteriors. A ratio that a signal does not
-- name is `none`, and one that is an infinity or not a number is `not_finite`; that a family, a
-- calibration and a finding are on their lists is the types' here.
pub mod Exact
pub mod Caps
pub mod Vetoes
pub mod Posteriors
use verif_ai.Common.{
  ℕ, Bool, true, false, ◌&&◌, not, Option, none, some, List, [], ◌∷◌, ◌++◌, map, String, filter,
  all, any, if◌then◌else◌,
}
use verif_ai.Types.Assessment.{
  IdentityFinding, identity_findings, identity_eq, matches_claim, unresolved, PlatformFinding,
  platform_findings, unplaced, TranslationFinding, direct, translation_findings, untraced,
}
use verif_ai.Types.Target.{Pairing, native, cross_protocol}
use verif_ai.Scoring.Numbers.{Numbers, least, greatest, clamp}
use verif_ai.Scoring.Verdict.{Result, ok, throws, type_error}

pub data SignalFamily : Type 0 where
  protocol_conformance accounting tokenizer causal_capability behavioral : SignalFamily

abbrev pub signal_families : List SignalFamily
signal_families =
    protocol_conformance ∷ accounting ∷ tokenizer ∷ causal_capability ∷ behavioral ∷ []

abbrev pub family_eq : SignalFamily → SignalFamily → Bool
family_eq protocol_conformance protocol_conformance = true
family_eq accounting accounting = true
family_eq tokenizer tokenizer = true
family_eq causal_capability causal_capability = true
family_eq behavioral behavioral = true
family_eq _ _ = false

pub data Calibration : Type 0 where
  measured documented derived heuristic : Calibration

abbrev pub is_heuristic : Calibration → Bool
is_heuristic heuristic = true
is_heuristic _ = false

-- The caps, in thousandths.
abbrev pub tier_cap : Calibration → ℕ
tier_cap measured = 2000
tier_cap documented = 1000
tier_cap derived = 700
tier_cap heuristic = 300

abbrev pub heuristic_family_cap : ℕ
heuristic_family_cap = 300

abbrev pub family_cap : SignalFamily → ℕ
family_cap protocol_conformance = 1500
family_cap accounting = 1500
family_cap tokenizer = 2000
family_cap causal_capability = 3000
family_cap behavioral = 700

-- VETO_LLR is -6.
abbrev pub veto_limit : ℕ
veto_limit = 6000

-- The priors, in thousandths.
abbrev pub identity_prior : IdentityFinding → ℕ
identity_prior unresolved = 300
identity_prior _ = 175

abbrev pub platform_prior : PlatformFinding → ℕ
platform_prior unplaced = 300
platform_prior _ = 350

abbrev pub translation_prior : TranslationFinding → ℕ
translation_prior untraced = 300
translation_prior _ = 350

-- A number of the source: a finite one, or an infinity or NaN.
pub data Ratio (N : Type 0) : Type 0 where
  finite : N → Ratio N
  not_finite : Ratio N

-- `Number.isFinite` of a ratio that a table has.
abbrev pub is_finite : {N : Type 0} → Option (Ratio N) → Bool
is_finite none = true
is_finite (some (finite x)) = true
is_finite (some not_finite) = false

-- `held[finding] = value`
abbrev pub update {ℓ} :
    {A : Type ℓ} → (IdentityFinding → A) → IdentityFinding → A → IdentityFinding → A
update held finding value other = if identity_eq finding other then value else held other

module _ (n : Numbers) where
  open n use {Num, le, add, sub, div, milli, minus_milli, billionth, log10, pow10}

  pub record Signal : Type 0 where
    pub probe_id : String
    pub signal_id : String
    pub family : SignalFamily
    pub calibration : Calibration
    pub identity : IdentityFinding → Option (Ratio Num)
    pub platform : PlatformFinding → Option (Ratio Num)
    pub translation : TranslationFinding → Option (Ratio Num)
    pub citations : List String
    pub vetoes : List IdentityFinding

  pub record Llrs : Type 0 where
    pub identity : IdentityFinding → Num
    pub platform : PlatformFinding → Num
    pub translation : TranslationFinding → Num

  pub record Aggregate : Type 0 where
    pub llr : Llrs
    pub posteriors : Llrs

  pub record Family : Type 0 where
    pub family : SignalFamily
    pub members : List Signal

  -- A signal must cite its source.
  abbrev pub cites : Signal → Bool
  cites s = elim (s.citations) [ [] ↦ false | _ ∷ _ ↦ true ]

  -- `checkRatios` throws nothing: every ratio on the three axes is finite.
  abbrev pub check_ratios : Signal → Bool
  check_ratios s =
      all (λ f. is_finite (s.identity f)) identity_findings
      && all (λ f. is_finite (s.platform f)) platform_findings
      && all (λ f. is_finite (s.translation f)) translation_findings

  -- What is left of `checkSignal` on a typed signal, which throws nothing.
  abbrev pub check_signal : Signal → Bool
  check_signal s = cites s && check_ratios s

  -- A ratio that is not finite has been refused by then.
  abbrev pub or_zero : Option (Ratio Num) → Num
  or_zero none = milli 0
  or_zero (some (finite x)) = x
  or_zero (some not_finite) = milli 0

  -- The loop of `familyLlr` on one axis and finding, which `ratio` reads from a signal's table.
  unfoldable pub family_sums : (Signal → Option (Ratio Num)) → Num → Num → List Signal → Num × Num
  family_sums ratio calibrated heuristics [] = (calibrated, heuristics)
  family_sums ratio calibrated heuristics (signal ∷ signals) =
      let capped = clamp n (or_zero (ratio signal)) (tier_cap signal.calibration) in
      if is_heuristic signal.calibration
      then family_sums ratio calibrated (add heuristics capped) signals
      else family_sums ratio (add calibrated capped) heuristics signals

  unfoldable pub family_llr : (Signal → Option (Ratio Num)) → Family → Num
  unfolding family_sums
  family_llr ratio f =
      let (calibrated, heuristics) = family_sums ratio (milli 0) (milli 0) f.members in
      clamp n (add calibrated (clamp n heuristics heuristic_family_cap)) (family_cap f.family)

  abbrev is_populated : Family → Bool
  is_populated f = elim (f.members) [ [] ↦ false | _ ∷ _ ↦ true ]

  unfoldable pub by_family : List Signal → List Family
  by_family signals = filter is_populated (
      map
        (λ family. record {
          family = family;
          members = filter (λ (s : Signal). family_eq s.family family) signals;
        })
        signal_families)

  -- The reduction of `axisLlr` for one finding.
  unfoldable pub sum_families : (Signal → Option (Ratio Num)) → Num → List Family → Num
  sum_families ratio total [] = total
  sum_families ratio total (f ∷ fs) = sum_families ratio (add total (family_llr ratio f)) fs

  unfoldable pub axis_llr : {F : Type 0} → List Family → (Signal → F → Option (Ratio Num)) → F → Num
  unfolding sum_families
  axis_llr families table finding = sum_families (λ s. table s finding) (milli 0) families

  -- Math.max of a list that is not empty, given its first number.
  unfoldable pub greatest_of : Num → List Num → Num
  greatest_of top [] = top
  greatest_of top (x ∷ xs) = greatest_of (greatest n top x) xs

  abbrev pub greatest_from : List Num → Num
  greatest_from [] = milli 0
  greatest_from (x ∷ xs) = greatest_of x xs

  unfoldable pub sum_from : Num → List Num → Num
  sum_from total [] = total
  sum_from total (x ∷ xs) = sum_from (add total x) xs

  -- A base-10 softmax of log prior plus log-likelihood ratio.
  module _ {F : Type 0} (prior : F → ℕ) (llr : F → Num) (findings : List F) where
    abbrev pub log_of : F → Num
    log_of finding = add (log10 (milli (prior finding))) (llr finding)

    abbrev pub top_log : Num
    top_log = greatest_from (map log_of findings)

    abbrev pub weight_of : F → Num
    weight_of finding = pow10 (sub (log_of finding) top_log)

    unfoldable pub posterior_of : F → Num
    posterior_of finding = div (weight_of finding) (sum_from (milli 0) (map weight_of findings))

  -- Every candidate within a tie of the most probable one, in the order of the candidates.
  unfoldable pub leaders_of : {F : Type 0} → (F → Num) → List F → List F
  leaders_of posterior candidates =
      filter (λ f. le (sub (greatest_from (map posterior candidates)) billionth) (posterior f))
        candidates

  abbrev pub only_or : {F : Type 0} → F → List F → F
  only_or fallback (leader ∷ []) = leader
  only_or fallback _ = fallback

  -- The single most probable finding that `excluded` does not name, or the fallback.
  unfoldable pub most_probable : {F : Type 0} → (F → Num) → List F → F → (F → Bool) → F
  unfolding leaders_of
  most_probable posterior findings fallback excluded =
      only_or fallback (leaders_of posterior (filter (λ f. not (excluded f)) findings))

  unfoldable pub hold : List IdentityFinding → (IdentityFinding → Num) → IdentityFinding → Num
  hold [] held = held
  hold (finding ∷ vetoes) held =
      hold vetoes (update held finding (least n (held finding) (minus_milli veto_limit)))

  -- `signals.flatMap((signal) => signal.vetoes ?? [])`
  unfoldable pub vetoes_of : List Signal → List IdentityFinding
  vetoes_of [] = []
  vetoes_of (signal ∷ signals) = signal.vetoes ++ vetoes_of signals

  unfoldable pub vetoed : (IdentityFinding → Num) → List Signal → IdentityFinding → Num
  unfolding hold vetoes_of
  vetoed llr signals = hold (vetoes_of signals) llr

  abbrev hold_direct : (TranslationFinding → Num) → TranslationFinding → Num
  hold_direct llr direct = least n (llr direct) (minus_milli veto_limit)
  hold_direct llr finding = llr finding

  unfoldable pub paired : (TranslationFinding → Num) → Pairing → TranslationFinding → Num
  paired llr native = llr
  paired llr cross_protocol = hold_direct llr

  -- The loop of `aggregate` over `checkSignal`, which throws nothing.
  abbrev pub check_signals : List Signal → Bool
  check_signals [] = true
  check_signals (signal ∷ signals) = check_signal signal && check_signals signals

  unfoldable pub llrs_of : List Signal → Pairing → Llrs
  unfolding by_family axis_llr vetoed paired
  llrs_of signals pairing = record {
    identity = vetoed (axis_llr (by_family signals) (λ s. s.identity)) signals;
    platform = axis_llr (by_family signals) (λ s. s.platform);
    translation = paired (axis_llr (by_family signals) (λ s. s.translation)) pairing;
  }

  unfoldable pub posteriors_of : Llrs → Llrs
  unfolding posterior_of
  posteriors_of llr = record {
    identity = posterior_of identity_prior llr.identity identity_findings;
    platform = posterior_of platform_prior llr.platform platform_findings;
    translation = posterior_of translation_prior llr.translation translation_findings;
  }

  unfoldable pub aggregate : List Signal → Pairing → Result Aggregate
  unfolding llrs_of posteriors_of
  aggregate signals pairing =
      if check_signals signals
      then ok (record {
        llr = llrs_of signals pairing;
        posteriors = posteriors_of (llrs_of signals pairing);
      })
      else throws type_error
