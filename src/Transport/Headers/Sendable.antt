-- ===== src/Transport/Headers/Sendable.antt =====
-- Which headers packages/core/src/transport/headers.ts lets through, and that an accepted API key can
-- be the value of one.
use verif_ai.Common.{◌≡◌, ◌↔◌, refl, true, false, none, List, [], ◌∷◌, ◌++◌, Text, All, arith}
use verif_ai.Credentials.ApiKey.{accepted, normalise_api_key}
use verif_ai.Credentials.ApiKey.Accepts.{Visible, normalise_api_key_iff}
use verif_ai.Transport.Headers.{
  HeaderPair, is_token, is_reserved, is_field_value, assert_sendable_headers,
}

-- A header that cannot end a line or add another.
abbrev pub IsSendable : HeaderPair → Type 0
IsSendable h =
    (is_token h.name ≡ true) × (is_reserved h.name ≡ false) × (is_field_value h.value ≡ true)

-- Headers are let through exactly when each has a token for a name that is not reserved, and a value
-- of visible ASCII, spaces and tabs.
pub assert_sendable_headers_iff :
    (headers : List HeaderPair) → (assert_sendable_headers headers ≡ none) ↔ All IsSendable headers
unfolding assert_sendable_headers
assert_sendable_headers_iff [] = ground arith
assert_sendable_headers_iff (h ∷ headers) = ground (arith, assert_sendable_headers_iff headers)

all-append :
    (front key : Text)
    → is_field_value front ≡ true
    → Visible key
    → is_field_value (front ++ key) ≡ true
all-append [] [] h v = refl
all-append [] (c ∷ key) h v = ground (arith, all-append [] key refl v.1)
all-append (c ∷ front) key h v = ground (arith, all-append front key (ground arith) v)

-- An accepted API key can be sent in a header whatever was pasted: under a token that is not
-- reserved, after a value that may itself be sent, it adds no refusal.
pub assert_sendable_headers-normalise_api_key :
    (input key : Text) (name scheme : Text) (headers : List HeaderPair)
    → normalise_api_key input ≡ accepted key
    → is_token name ≡ true
    → is_reserved name ≡ false
    → is_field_value scheme ≡ true
    → assert_sendable_headers (record { name = name; value = scheme ++ key } ∷ headers)
      ≡ assert_sendable_headers headers
unfolding assert_sendable_headers
assert_sendable_headers-normalise_api_key input key name scheme headers h token free value =
    let (around, ok) = (normalise_api_key_iff input key).0 h in
    rw (token, free, all-append scheme key value ok.0) refl
