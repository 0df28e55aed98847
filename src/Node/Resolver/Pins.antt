-- ===== src/Node/Resolver/Pins.antt =====
-- What the pinned lookup of packages/node/src/resolver.ts may answer with.
use verif_ai.Common.{
  ℕ, ◌≡◌, refl, Bool, true, false, List, [], ◌∷◌, Text, text_eq, all, arith, Bool-cases, inl, inr,
}
use verif_ai.Transport.Headers.{to_lower_case}
use verif_ai.Node.Resolver.{
  PinnedAddress, FamilyOption, requested_family, LookupAnswer, unpinned_lookup, not_found, all_of,
  one_of, pin, matching_family, answer_with, pinned_lookup,
}

-- The addresses of an answer.
abbrev pub answered_with : LookupAnswer → List PinnedAddress
answered_with unpinned_lookup = []
answered_with not_found = []
answered_with (all_of pinned) = pinned
answered_with (one_of first) = first ∷ []

module _ (ok : Text → Bool) where
  abbrev pub addresses_ok : List PinnedAddress → Bool
  addresses_ok = all (λ p. ok p.address)

  all-pin :
      (is_ip : Text → ℕ) (addresses : List Text)
      → all ok addresses ≡ true
      → addresses_ok (pin is_ip addresses) ≡ true
  all-pin is_ip [] h = refl
  all-pin is_ip (a ∷ addresses) h = ground (arith, all-pin is_ip addresses)

  all_matching :
      (family : ℕ) (pinned : List PinnedAddress)
      → addresses_ok pinned ≡ true
      → addresses_ok (matching_family family pinned) ≡ true
  all_matching family [] h = refl
  all_matching family (p ∷ pinned) h = ground (arith, all_matching family pinned)

  all_answered :
      (every : Bool) (pinned : List PinnedAddress)
      → addresses_ok pinned ≡ true
      → addresses_ok (answered_with (answer_with every pinned)) ≡ true
  all_answered every [] h = refl
  all_answered true (p ∷ pinned) h = h
  all_answered false (p ∷ pinned) h = ground arith

  -- What holds of each address that a lookup is pinned to holds of each that it answers with.
  pub all-pinned_lookup :
      (is_ip : Text → ℕ) (expected : Text) (addresses : List Text) (hostname : Text)
      (family : FamilyOption) (every : Bool)
      → all ok addresses ≡ true
      → addresses_ok (answered_with (pinned_lookup is_ip expected addresses hostname family every))
        ≡ true
  unfolding pinned_lookup
  all-pinned_lookup is_ip expected addresses hostname family every h =
      elim (Bool-cases (text_eq (to_lower_case hostname) (to_lower_case expected))) [
        | inl same ↦ rw same (
            all_answered every (matching_family (requested_family family) (pin is_ip addresses)) (
              all_matching (requested_family family) (pin is_ip addresses)
                (all-pin is_ip addresses h)))
        | inr other ↦ rw other refl
      ]
