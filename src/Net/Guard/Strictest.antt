-- ===== src/Net/Guard/Strictest.antt =====
-- What `checkAddresses` of packages/core/src/net/guard.ts decides, independently of the order.
use verif_ai.Common.{
  ◌≡◌, ◌≢◌, ◌↔◌, ◌⊎◌, Bool, true, false, List, [], ◌∷◌, Text, any, all, arith, refl, if◌then◌else◌,
}
use verif_ai.Net.Address.Ranges.{AddressScope}
use verif_ai.Net.Address.Classify.{classify_address}
use verif_ai.Net.Guard.{
  TargetPolicy, AddressVerdict, admitted, refused, refused_private, refused_forbidden, admits_scope,
  is_forbidden, verdict_from, check_addresses,
}

abbrev pub scope : Text → AddressScope
scope address = (classify_address address).scope

abbrev pub some_forbidden : List Text → Bool
some_forbidden addresses = any (λ a. is_forbidden (scope a)) addresses

abbrev pub all_admitted : TargetPolicy → List Text → Bool
all_admitted policy addresses = all (λ a. admits_scope (scope a) policy) addresses

verdict_from_lem :
    (policy : TargetPolicy) (verdict : AddressVerdict) (addresses : List Text)
    → verdict_from policy verdict addresses ≡ (
        if some_forbidden addresses
        then refused refused_forbidden
        else if all_admitted policy addresses
        then verdict
        else refused refused_private)
unfolding verdict_from
verdict_from_lem policy verdict [] = refl
verdict_from_lem policy verdict (a ∷ rest) = ground (
  arith,
  verdict_from_lem policy verdict rest,
  verdict_from_lem policy (refused refused_private) rest,
)

admitted-not_forbidden :
    (policy : TargetPolicy) (addresses : List Text)
    → all_admitted policy addresses ≡ true
    → some_forbidden addresses ≡ false
admitted-not_forbidden policy [] h = refl
admitted-not_forbidden policy (a ∷ rest) h = ground (arith, admitted-not_forbidden policy rest)

abbrev strictest : Bool → Bool → AddressVerdict
strictest f m =
    if f then refused refused_forbidden else if m then admitted else refused refused_private

strictest_cases :
    (f m : Bool) (l : List Text)
    → l ≢ []
    → (m ≡ true → f ≡ false)
    → ((strictest f m ≡ admitted) ↔ ((l ≢ []) × (m ≡ true)))
      × ((strictest f m ≡ refused refused_forbidden) ↔ ((l ≡ []) ⊎ (f ≡ true)))
      × ((strictest f m ≡ refused refused_private) ↔ ((l ≢ []) × (f ≡ false) × (m ≡ false)))
strictest_cases true true l n h = ground arith
strictest_cases true false l n h = ground arith
strictest_cases false true l n h = ground arith
strictest_cases false false l n h = ground arith

-- The verdict on a set of addresses is the strictest that any of them calls for, whatever their
-- order. It admits exactly the non-empty sets in which the policy admits the scope of every
-- address; it refuses as forbidden exactly the empty set and the sets with a forbidden address
-- anywhere; and it refuses as private exactly the other sets.
pub check_addresses_strictest :
    (addresses : List Text) (policy : TargetPolicy)
    → ((check_addresses addresses policy ≡ admitted)
        ↔ ((addresses ≢ []) × (all_admitted policy addresses ≡ true)))
      × ((check_addresses addresses policy ≡ refused refused_forbidden)
          ↔ ((addresses ≡ []) ⊎ (some_forbidden addresses ≡ true)))
      × ((check_addresses addresses policy ≡ refused refused_private) ↔ (
          (addresses ≢ [])
          × (some_forbidden addresses ≡ false)
          × (all_admitted policy addresses ≡ false)))
unfolding check_addresses
check_addresses_strictest [] policy = ground arith
check_addresses_strictest (a ∷ rest) policy =
    rw (verdict_from_lem policy admitted (a ∷ rest), check_addresses)
      (strictest_cases (some_forbidden (a ∷ rest)) (all_admitted policy (a ∷ rest)) (a ∷ rest) (cc)
        (admitted-not_forbidden policy (a ∷ rest)))
