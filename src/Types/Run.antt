-- ===== src/Types/Run.antt =====
-- What a run produces, before it is scored: packages/core/src/runner/types.ts, and the probe groups
-- and signal families of packages/core/src/probes/types.ts.
use verif_ai.Common.{ℕ, Bool, true, false, List, String}

pub data ProbeGroup : Type 0 where
  group_a group_b group_c group_d group_e group_f : ProbeGroup

abbrev pub group_eq : ProbeGroup → ProbeGroup → Bool
group_eq group_a group_a = true
group_eq group_b group_b = true
group_eq group_c group_c = true
group_eq group_d group_d = true
group_eq group_e group_e = true
group_eq group_f group_f = true
group_eq _ _ = false

pub data SkipReason : Type 0 where
  not_applicable needs_api_key budget_exceeded endpoint_error unsupported_by_transport blocked
        opt_in aborted profile probe_error :
      SkipReason

-- GAP_REASONS
abbrev pub is_gap : SkipReason → Bool
is_gap not_applicable = false
is_gap opt_in = false
is_gap profile = false
is_gap _ = true

-- A probe that ran has no reason; a skipped one says why.
pub data Status : Type 0 where
  ran : Status
  skipped : SkipReason → Status

pub record ProbeOutcome : Type 0 where
  pub probe_id : String
  pub group : ProbeGroup
  pub status : Status

pub record SkippedProbe : Type 0 where
  pub probe_id : String
  pub reason : SkipReason

pub data DrawOutcome : Type 0 where
  agree disagree lost excluded : DrawOutcome

pub record DrawRecord : Type 0 where
  pub draw : ℕ
  pub outcome : DrawOutcome

pub data DilutionBasis : Type 0 where
  reference mode : DilutionBasis

pub record DilutionRun : Type 0 where
  pub probe_id : String
  pub basis : DilutionBasis
  pub requests_per_draw : ℕ
  pub draws : List DrawRecord
  pub readings : List String
  pub planned : ℕ
  pub spread_ms : ℕ
