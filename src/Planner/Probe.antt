-- ===== src/Planner/Probe.antt =====
-- What the planner reads of a probe and a target: packages/core/src/probes/types.ts, with the
-- functions of a probe that run it left out, and `probeCost` and `applies` of planner/plan.ts.
use Prim.Native.String
use Prim.Native.Nat.{Ordering}
use verif_ai.Common.{
  ℕ, ◌+◌, ◌*◌, ◌/◌, Bool, true, false, ◌&&◌, Option, none, some, List, any, String, if◌then◌else◌,
}
use verif_ai.Types.Run.{ProbeGroup, group_f, group_eq}
use verif_ai.Types.Target.{Vendor, Protocol, Pairing, vendor_eq, protocol_eq}

abbrev pub string_eq : String → String → Bool
string_eq a b = elim (String.compare a b) [ Ordering.eq ↦ true | _ ↦ false ]

-- The endpoint and the key's scheme are left out: only a probe's own `applies` could read them.
pub record ProbeTarget : Type 0 where
  pub protocol : Protocol
  pub claimed_vendor : Vendor
  pub claimed_model : String
  pub requested_model : String
  pub pairing : Pairing

pub record ProbeCost : Type 0 where
  pub requests : ℕ
  pub tokens : ℕ

pub record AnyProbe : Type 0 where
  pub id : String
  pub group : ProbeGroup
  pub protocols : List Protocol
  pub vendors : List Vendor
  pub applies_to : Option (ProbeTarget → Bool)
  pub needs_key : Bool
  pub opt_in : Bool
  pub cost : ProbeCost

abbrev pub is_dilution_probe : AnyProbe → Bool
is_dilution_probe probe = group_eq probe.group group_f

-- `replacementAllowance` of packages/core/src/runner/dilution.ts.
abbrev pub replacement_allowance : ℕ → ℕ
replacement_allowance draws = draws / 9

unfoldable pub probe_cost : AnyProbe → ℕ → ProbeCost
probe_cost probe draws =
    let times = draws + replacement_allowance draws + 1 in
    if is_dilution_probe probe
    then record { requests = probe.cost.requests * times; tokens = probe.cost.tokens * times }
    else probe.cost

unfoldable pub applies : AnyProbe → ProbeTarget → Bool
applies probe target =
    any (protocol_eq target.protocol) probe.protocols
    && any (vendor_eq target.claimed_vendor) probe.vendors
    && elim (probe.applies_to) [ none ↦ true | some test ↦ test target ]
