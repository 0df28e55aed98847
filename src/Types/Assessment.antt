-- ===== src/Types/Assessment.antt =====
-- packages/core/src/types/assessment.ts: the five axes of an assessment. The verdict that collapses
-- them is in Scoring.Verdict.
use verif_ai.Common.{Bool, true, false, List, [], ◌∷◌}

pub data IdentityFinding : Type 0 where
  matches_claim same_vendor_cheaper different_vendor not_a_live_model unresolved : IdentityFinding

abbrev pub identity_findings : List IdentityFinding
identity_findings =
    matches_claim ∷ same_vendor_cheaper ∷ different_vendor ∷ not_a_live_model ∷ unresolved ∷ []

abbrev pub adverse_identity_findings : List IdentityFinding
adverse_identity_findings = same_vendor_cheaper ∷ different_vendor ∷ not_a_live_model ∷ []

-- ADVERSE_IDENTITY_FINDINGS.has
abbrev pub is_adverse : IdentityFinding → Bool
is_adverse same_vendor_cheaper = true
is_adverse different_vendor = true
is_adverse not_a_live_model = true
is_adverse _ = false

abbrev pub identity_eq : IdentityFinding → IdentityFinding → Bool
identity_eq matches_claim matches_claim = true
identity_eq same_vendor_cheaper same_vendor_cheaper = true
identity_eq different_vendor different_vendor = true
identity_eq not_a_live_model not_a_live_model = true
identity_eq unresolved unresolved = true
identity_eq _ _ = false

pub data ConsistencyFinding : Type 0 where
  uniform fractional undetermined : ConsistencyFinding

pub data PlatformFinding : Type 0 where
  first_party partner_cloud unplaced : PlatformFinding

abbrev pub platform_findings : List PlatformFinding
platform_findings = first_party ∷ partner_cloud ∷ unplaced ∷ []

pub data TranslationFinding : Type 0 where
  direct translated untraced : TranslationFinding

abbrev pub translation_findings : List TranslationFinding
translation_findings = direct ∷ translated ∷ untraced ∷ []

pub data EvidenceFinding : Type 0 where
  sufficient budget_limited obstructed : EvidenceFinding

pub record Assessment : Type 0 where
  pub identity : IdentityFinding
  pub consistency : ConsistencyFinding
  pub platform : PlatformFinding
  pub translation : TranslationFinding
  pub evidence : EvidenceFinding

pub data Verdict : Type 0 where
  pass caution fail : Verdict
