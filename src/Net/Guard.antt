-- ===== src/Net/Guard.antt =====
-- packages/core/src/net/guard.ts: the admission decision for a set of resolved addresses.
pub mod Strictest
use verif_ai.Common.{Bool, true, false, ◌&&◌, ◌||◌, List, [], ◌∷◌, Text, if◌then◌else◌}
use verif_ai.Net.Address.Ranges.{AddressScope, public_scope, private_scope, forbidden}
use verif_ai.Net.Address.Classify.{classify_address}

pub record TargetPolicy : Type 0 where
  pub allow_private_targets : Bool

-- RefusedScope: every scope but public.
pub data RefusedScope : Type 0 where
  refused_private refused_forbidden : RefusedScope

pub data AddressVerdict : Type 0 where
  admitted : AddressVerdict
  refused : RefusedScope → AddressVerdict

abbrev pub admits_scope : AddressScope → TargetPolicy → Bool
admits_scope public_scope policy = true
admits_scope private_scope policy = policy.allow_private_targets
admits_scope forbidden policy = false

abbrev pub is_forbidden : AddressScope → Bool
is_forbidden forbidden = true
is_forbidden _ = false

-- The loop of `checkAddresses`, with the verdict so far.
unfoldable pub verdict_from : TargetPolicy → AddressVerdict → List Text → AddressVerdict
verdict_from policy verdict [] = verdict
verdict_from policy verdict (address ∷ addresses) =
    let scope = (classify_address address).scope in
    elim (is_forbidden scope) [
      | true ↦ refused refused_forbidden
      | false ↦
          verdict_from policy
            (if admits_scope scope policy then verdict else refused refused_private) addresses
    ]

unfoldable pub check_addresses : List Text → TargetPolicy → AddressVerdict
unfolding verdict_from
check_addresses [] policy = refused refused_forbidden
check_addresses (address ∷ addresses) policy = verdict_from policy admitted (address ∷ addresses)
