-- ===== src/Node/Transport/Dials.antt =====
-- Where a request of packages/node/src/transport.ts may connect, and that its exchange ends.
use mathlib.Core.Path.{subst}
use verif_ai.Common.{
  ℕ, ◌≡◌, ◌≢◌, ◌⊎◌, inl, inr, refl, Bool, true, Option, none, some, List, [], ◌∷◌, Text, arith,
}
use verif_ai.Net.Guard.{
  TargetPolicy, AddressVerdict, admitted, refused, admits_scope, check_addresses,
}
use verif_ai.Net.Guard.Strictest.{scope, all_admitted, check_addresses_strictest}
use verif_ai.Net.Address.Ranges.{AddressClass}
use verif_ai.Net.TargetUrl.{Url, TargetUrl}
use verif_ai.Node.Resolver.{FamilyOption, pinned_lookup}
use verif_ai.Node.Resolver.Pins.{addresses_ok, answered_with, all-pinned_lookup}
use verif_ai.Node.Exchange.{Cause}
use verif_ai.Node.Transport.{
  TransportRequest, PlanTarget, reachable, blocked, SendPlan, Prepared, prepared, malformed,
  prepare, Resolution, resolved, unresolved, race_end, resolve_target, Sending, throws, refuses,
  exchanges, Outside, with_verdict, with_resolution, send_to, send_plan, send_prepared,
  send_request,
}

-- What is checked of the addresses: the policy admits each, and a literal is the only one.
record IsDialled (policy : TargetPolicy) (target : TargetUrl) (addresses : List Text) : Type 0 where
  verdict : check_addresses addresses policy ≡ admitted
  literal : (target.address_literal ≡ none) ⊎ (addresses ≡ target.hostname ∷ [])

-- Of any sending: what goes out is checked.
abbrev Checked : TargetPolicy → Sending → Type 0
Checked policy (throws error) = Unit
Checked policy (refuses failure) = Unit
Checked policy (exchanges plan target addresses) = IsDialled policy target addresses

module _ (outside : Outside) (plan : SendPlan) (policy : TargetPolicy) (target : TargetUrl) where
  verdict-Checked :
      (addresses : List Text) (verdict : AddressVerdict)
      → check_addresses addresses policy ≡ verdict
      → (target.address_literal ≡ none) ⊎ (addresses ≡ target.hostname ∷ [])
      → Checked policy (with_verdict outside plan target addresses verdict)
  verdict-Checked addresses admitted h literal = record { verdict = h; literal = literal }
  verdict-Checked addresses (refused scope) h literal = tt

  resolution-Checked :
      (resolution : Resolution)
      → ((addresses : List Text)
          → resolution ≡ resolved addresses
          → (target.address_literal ≡ none) ⊎ (addresses ≡ target.hostname ∷ []))
      → Checked policy (with_resolution outside plan target policy resolution)
  resolution-Checked (unresolved kind) literal = tt
  resolution-Checked (resolved addresses) literal =
      verdict-Checked addresses (check_addresses addresses policy) refl (literal addresses refl)

  target-Checked :
      (literal : Option AddressClass)
      → target.address_literal ≡ literal
      → Checked policy (
          with_resolution outside plan target policy
            (resolve_target target.hostname literal outside.race))
  target-Checked none same = resolution-Checked (race_end outside.race) (λ addresses e. inl same)
  target-Checked (some class) same =
      resolution-Checked (resolved (target.hostname ∷ [])) (λ addresses e. inr (ground arith))

  send_to-Checked :
      (early : Option Cause) → Checked policy (send_to outside plan target policy early)
  send_to-Checked (some cause) = tt
  send_to-Checked none = target-Checked target.address_literal refl

prepared-Checked :
    (outside : Outside) (policy : TargetPolicy) (p : Prepared)
    → Checked policy (send_prepared outside policy p)
prepared-Checked outside policy (malformed error) = tt
prepared-Checked outside policy (prepared plan) = by_target plan.target
  where
    by_target : (target : PlanTarget) → Checked policy (send_plan outside plan policy target)
    by_target (blocked scope) = tt
    by_target (reachable target) = send_to-Checked outside plan policy target outside.early

-- A request goes out only to where the policy admits: whatever the URL parser and the resolver give,
-- if an exchange is started then there is an address, the policy admits the scope of every one of
-- them, a hostname that is an address literal is the only one, and any lookup for the connection, of
-- whatever name and family, is answered with admitted addresses alone.
pub send_request_dials :
    (parse : Text → Option Url) (request : TransportRequest) (policy : TargetPolicy)
    (outside : Outside) (plan : SendPlan) (target : TargetUrl) (addresses : List Text)
    (is_ip : Text → ℕ) (hostname : Text) (family : FamilyOption) (every : Bool)
    → send_request parse request policy outside ≡ exchanges plan target addresses
    → (addresses ≢ [])
      × (all_admitted policy addresses ≡ true)
      × ((target.address_literal ≡ none) ⊎ (addresses ≡ target.hostname ∷ []))
      × (addresses_ok
            (λ a. admits_scope (scope a) policy)
            (answered_with (pinned_lookup is_ip target.hostname addresses hostname family every))
          ≡ true)
unfolding send_request
send_request_dials parse request policy outside plan target addresses is_ip hostname family every
      h =
    let dialled =
      subst (Checked policy) h (prepared-Checked outside policy (prepare parse request policy)) in
    let (some_address, all_ok) = (check_addresses_strictest addresses policy).0.0 dialled.verdict in
    (
      some_address,
      all_ok,
      dialled.literal,
      all-pinned_lookup (λ a. admits_scope (scope a) policy) is_ip target.hostname addresses
          hostname family every all_ok,
    )
