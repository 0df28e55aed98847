-- ===== src/Scoring/Verdict.antt =====
-- `verdictFor` of packages/core/src/types/assessment.ts: five axes and a confidence into one word.
use verif_ai.Common.{
  ℕ, ◌≡◌, ◌≢◌, ◌↔◌, ◌⊎◌, Bool, true, false, ◌&&◌, ◌||◌, not, arith, if◌then◌else◌,
}
use verif_ai.Types.Assessment.{
  IdentityFinding, matches_claim, is_adverse, ConsistencyFinding, uniform, fractional,
  EvidenceFinding, obstructed, Assessment, Verdict, pass, caution, fail,
}
use verif_ai.Scoring.Numbers.{Numbers, IsUnit}

-- What the scoring throws.
pub data Fault : Type 0 where
  range_error type_error : Fault

pub data Result {ℓ} (A : Type ℓ) : Type ℓ where
  ok : A → Result A
  throws : Fault → Result A

abbrev pub is_matches : IdentityFinding → Bool
is_matches matches_claim = true
is_matches _ = false

abbrev pub is_uniform : ConsistencyFinding → Bool
is_uniform uniform = true
is_uniform _ = false

abbrev pub is_fractional : ConsistencyFinding → Bool
is_fractional fractional = true
is_fractional _ = false

abbrev pub is_obstructed : EvidenceFinding → Bool
is_obstructed obstructed = true
is_obstructed _ = false

abbrev pub minimum_pass_confidence : ℕ
minimum_pass_confidence = 800

abbrev pub minimum_fail_confidence : ℕ
minimum_fail_confidence = 900

module _ (n : Numbers) where
  open n use {Num, le, milli}

  unfoldable pub verdict_for : Assessment → Num → Result Verdict
  verdict_for assessment confidence =
      if not (le (milli 0) confidence) || not (le confidence (milli 1000))
      then throws range_error
      else if is_fractional assessment.consistency && is_matches assessment.identity
      then throws type_error
      else if is_adverse assessment.identity || is_fractional assessment.consistency
      then (if le (milli minimum_fail_confidence) confidence then ok fail else ok caution)
      else if is_obstructed assessment.evidence
      then ok caution
      else if is_matches assessment.identity
          && is_uniform assessment.consistency
          && le (milli minimum_pass_confidence) confidence
      then ok pass
      else ok caution

  -- The verdict on every assessment and confidence. It is pass exactly when the claim is matched,
  -- uniformly and without obstruction, at 0.8 or more; it is fail exactly when the identity is
  -- adverse or the traffic a mixture, at 0.9 or more, and the claimed model is not named under a
  -- mixture. Both need a confidence between 0 and 1. It throws a range error exactly on a confidence
  -- outside 0 to 1, and a type error exactly on a confidence inside with a mixture that names the
  -- claimed model.
  pub verdict_for_iff :
      (a : Assessment) (c : Num)
      → ((verdict_for a c ≡ ok pass) ↔ (
          (a.identity ≡ matches_claim)
          × (a.consistency ≡ uniform)
          × (a.evidence ≢ obstructed)
          × (le (milli 800) c ≡ true)
          × IsUnit n c))
        × ((verdict_for a c ≡ ok fail) ↔ (
            ((is_adverse a.identity ≡ true)
              ⊎ ((a.consistency ≡ fractional) × (a.identity ≢ matches_claim)))
            × (le (milli 900) c ≡ true)
            × IsUnit n c))
        × ((verdict_for a c ≡ throws range_error) ↔ (¬ IsUnit n c))
        × ((verdict_for a c ≡ throws type_error)
            ↔ ((a.consistency ≡ fractional) × (a.identity ≡ matches_claim) × IsUnit n c))
  unfolding verdict_for
  verdict_for_iff a c = (ground arith, ground arith, ground arith, ground arith)
