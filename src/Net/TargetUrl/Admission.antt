-- ===== src/Net/TargetUrl/Admission.antt =====
-- What a target that `parseTargetUrl` of packages/core/src/net/target-url.ts returns has passed.
use mathlib.Core.Path.{subst}
use verif_ai.Net.TargetUrl.Hostname.{ReadAs, hostname_lem, ReadAs-one}
use verif_ai.Common.{
  ◌≡◌, sym, ◌∙◌, ◌≢◌, ◌⊎◌, inl, inr, ap, true, false, Option, none, some, [], ◌∷◌, Text, arith,
  text_eq, text_eq_refl, text_eq_sound, codes, refl, ◌↔◌, Option-cases, Bool-cases,
}
use verif_ai.Net.Address.Ranges.{AddressClass, AddressScope, forbidden, private_scope, public_scope}
use verif_ai.Net.Guard.{TargetPolicy, admits_scope}
use verif_ai.Net.TargetUrl.{
  TargetUrlProblem, unsupported_scheme, embedded_credentials, not_a_url, Protocol, http, https,
  admit, target_of, refused_scope, Url, TargetUrl, ok, problem, blocked_address, bare_hostname,
  literal_of, supported_protocol, check_url, parse_target_url,
}

-- No address literal, or one whose scope the policy admits: never a forbidden one, and a private
-- one only where the policy allows it.
abbrev IsAdmitted : Option AddressClass → TargetPolicy → Type 0
IsAdmitted none policy = Unit
IsAdmitted (some literal) policy =
    (literal.scope ≢ forbidden)
    × ((literal.scope ≡ public_scope) ⊎ (policy.allow_private_targets ≡ true))

record Passed (url : Url) (policy : TargetPolicy) (t : TargetUrl) : Type 0 where
  scheme : supported_protocol url.protocol ≡ some t.protocol
  no_username : text_eq url.username [] ≡ true
  no_password : text_eq url.password [] ≡ true
  named : text_eq url.hostname [] ≡ false
  connects : t.hostname ≡ (bare_hostname url.hostname).0
  literal : t.address_literal ≡ literal_of (bare_hostname url.hostname)
  admitted : IsAdmitted t.address_literal policy

scope_admitted :
    (scope : AddressScope) (policy : TargetPolicy)
    → admits_scope scope policy ≡ true
    → (scope ≢ forbidden) × ((scope ≡ public_scope) ⊎ (policy.allow_private_targets ≡ true))
scope_admitted public_scope policy h = ground arith
scope_admitted private_scope policy h = ground arith
scope_admitted forbidden policy h = absurd (cc)

admit-IsAdmitted :
    (url : Url) (p : Protocol) (bare : Text) (literal : Option AddressClass) (policy : TargetPolicy)
    (t : TargetUrl)
    → admit url p bare literal policy ≡ ok t
    → (t ≡ target_of url p bare literal) × IsAdmitted literal policy
unfolding admit
admit-IsAdmitted url p bare none policy t h = (cc, tt)
admit-IsAdmitted url p bare (some literal) policy t h =
    elim (Bool-cases (admits_scope literal.scope policy)) [
      | inl e ↦
          let h' : ok (target_of url p bare (some literal)) ≡ ok t = rw e at h in
          (cc, scope_admitted literal.scope policy e)
      | inr e ↦
          let h' : problem (blocked_address (refused_scope literal.scope)) ≡ ok t = rw e at h in
          absurd (cc)
    ]

passed :
    (url : Url) (policy : TargetPolicy) (t : TargetUrl) (protocol : Protocol)
    → supported_protocol url.protocol ≡ some protocol
    → text_eq url.username [] ≡ true
    → text_eq url.password [] ≡ true
    → text_eq url.hostname [] ≡ false
    → admit url protocol
        (bare_hostname url.hostname).0
        (literal_of (bare_hostname url.hostname))
        policy
      ≡ ok t
    → Passed url policy t
passed url policy t protocol e f g k h =
    let (same, within) =
      admit-IsAdmitted url protocol (bare_hostname url.hostname).0
        (literal_of (bare_hostname url.hostname)) policy t h in
    record {
      scheme = e ∙ ap (λ (u : TargetUrl). some u.protocol) (sym same);
      no_username = f;
      no_password = g;
      named = k;
      connects = ap (λ (u : TargetUrl). u.hostname) same;
      literal = ap (λ (u : TargetUrl). u.address_literal) same;
      admitted = rw same within;
    }

refused : (p : TargetUrlProblem) {t : TargetUrl} → problem p ≡ ok t → ⊥
refused p h = cc

check_url-Passed :
    (url : Url) (policy : TargetPolicy) (t : TargetUrl)
    → check_url url policy ≡ ok t
    → Passed url policy t
unfolding check_url
check_url-Passed url policy t h = elim (Option-cases (supported_protocol url.protocol)) [
  | inl e ↦ absurd (refused unsupported_scheme (rw (e, check_url) at h))
  | inr (protocol, e) ↦ elim (Bool-cases (text_eq url.username [])) [
    | inr f ↦ absurd (refused embedded_credentials (rw (f, check_url) at (rw (e, check_url) at h)))
    | inl f ↦ elim (Bool-cases (text_eq url.password [])) [
      | inr g ↦ absurd (
          refused embedded_credentials
            (rw (g, check_url) at (rw (f, check_url) at (rw (e, check_url) at h))))
      | inl g ↦ elim (Bool-cases (text_eq url.hostname [])) [
        | inl k ↦ absurd (
            refused not_a_url (
              rw (k, check_url) at
                (rw (g, check_url) at (rw (f, check_url) at (rw (e, check_url) at h)))))
        | inr k ↦ passed url policy t protocol e f g k (
            rw (k, check_url) at
              (rw (g, check_url) at (rw (f, check_url) at (rw (e, check_url) at h))))
      ]
    ]
  ]
]

-- Whether the URL may be connected to: its scheme is http or https, it holds no credentials, it has a
-- hostname, and where that is an address literal, in brackets or of four runs of digits, the policy
-- admits the scope of the address.
pub record Admissible (url : Url) (policy : TargetPolicy) : Type 0 where
  pub scheme : (url.protocol ≡ codes "http:") ⊎ (url.protocol ≡ codes "https:")
  no_username : url.username ≡ []
  no_password : url.password ≡ []
  pub named : url.hostname ≢ []
  read_as :
      (bare : Text) × (literal : Option AddressClass) × ReadAs url.hostname bare literal
      × IsAdmitted literal policy

scheme_to :
    (protocol : Text) (p : Protocol)
    → supported_protocol protocol ≡ some p
    → (protocol ≡ codes "http:") ⊎ (protocol ≡ codes "https:")
unfolding supported_protocol
scheme_to protocol p h = elim (Bool-cases (text_eq protocol (codes "http:"))) [
  | inl e ↦ inl (text_eq_sound protocol _ e)
  | inr e ↦ elim (Bool-cases (text_eq protocol (codes "https:"))) [
    | inl f ↦ inr (text_eq_sound protocol _ f)
    | inr f ↦ absurd (ground arith)
  ]
]

scheme_from :
    (protocol : Text)
    → (protocol ≡ codes "http:") ⊎ (protocol ≡ codes "https:")
    → (p : Protocol) × (supported_protocol protocol ≡ some p)
unfolding supported_protocol text_eq
scheme_from protocol (inl e) = (http, ap supported_protocol e)
scheme_from protocol (inr e) = (https, ap supported_protocol e)

equal_to : (t u : Text) → t ≡ u → text_eq t u ≡ true
equal_to t u e = ap (text_eq t) (sym e) ∙ text_eq_refl t

unequal_to : (t u : Text) → t ≢ u → text_eq t u ≡ false
unequal_to t u n = elim (Bool-cases (text_eq t u)) [
  | inl e ↦ absurd (n (text_eq_sound t u e))
  | inr e ↦ e
]

named_to : (t : Text) → text_eq t [] ≡ false → t ≢ []
unfolding text_eq
named_to [] h = absurd (ground arith)
named_to (x ∷ t) h = λ e. absurd (cc)

admits :
    (scope : AddressScope) (policy : TargetPolicy)
    → (scope ≢ forbidden) × ((scope ≡ public_scope) ⊎ (policy.allow_private_targets ≡ true))
    → admits_scope scope policy ≡ true
admits public_scope policy h = refl
admits private_scope policy (_, inl e) = absurd (cc)
admits private_scope policy (_, inr e) = e
admits forbidden policy (n, _) = absurd (n refl)

admit-ok :
    (url : Url) (p : Protocol) (bare : Text) (literal : Option AddressClass) (policy : TargetPolicy)
    → IsAdmitted literal policy
    → admit url p bare literal policy ≡ ok (target_of url p bare literal)
unfolding admit
admit-ok url p bare none policy h = refl
admit-ok url p bare (some l) policy h = rw (admits l.scope policy h) refl

Admissible-ok :
    (url : Url) (policy : TargetPolicy)
    → Admissible url policy
    → (t : TargetUrl) × (check_url url policy ≡ ok t)
unfolding check_url
Admissible-ok url policy h =
    let (p, e) = scheme_from url.protocol h.scheme in
    let (bare, literal, read, within) = h.read_as in
    let same =
      ReadAs-one url.hostname bare (bare_hostname url.hostname).0 literal
        (literal_of (bare_hostname url.hostname)) read (hostname_lem url.hostname) in
    (
      target_of url p (bare_hostname url.hostname).0 (literal_of (bare_hostname url.hostname)),
      rw
          (
            e,
            equal_to url.username [] h.no_username,
            equal_to url.password [] h.no_password,
            unequal_to url.hostname [] h.named,
            check_url,
          )
          (admit-ok url p (bare_hostname url.hostname).0 (literal_of (bare_hostname url.hostname))
            policy (subst (λ l. IsAdmitted l policy) same within)),
    )

-- An input is admitted exactly when the platform parses it to a URL with an http or https scheme,
-- without credentials and with a hostname, and where that hostname is an address literal, in brackets
-- or of four runs of digits, the policy admits the scope of the address: it is not forbidden, and is
-- public unless private targets are allowed. The target connects to that hostname, without the
-- brackets, and records the class of the literal, or none.
pub parse_target_url_iff :
    (parse : Text → Option Url) (input : Text) (policy : TargetPolicy) (url : Url)
    → parse input ≡ some url
    → ((t : TargetUrl) × (parse_target_url parse input policy ≡ ok t)
        × ReadAs url.hostname t.hostname t.address_literal)
      ↔ Admissible url policy
unfolding parse_target_url
parse_target_url_iff parse input policy url e = (
  λ (t, h, read).
      let p = check_url-Passed url policy t (rw (e, parse_target_url) at h) in
      record {
        scheme = scheme_to url.protocol t.protocol p.scheme;
        no_username = text_eq_sound url.username [] p.no_username;
        no_password = text_eq_sound url.password [] p.no_password;
        named = named_to url.hostname p.named;
        read_as = (t.hostname, t.address_literal, read, p.admitted);
      },
  λ h.
      let (t, admitted) = Admissible-ok url policy h in
      let p = check_url-Passed url policy t admitted in
      (
        t,
        rw (e, parse_target_url) admitted,
        rw (p.connects, p.literal) (hostname_lem url.hostname),
      ),
)
