-- ===== src/Transport/Headers.antt =====
-- packages/core/src/transport/headers.ts: header pairs, and the checks of a request's headers. A name
-- is compared in lower case; `toLowerCase` is written for the ASCII letters, which are all that a
-- token holds.
pub mod Sendable
use verif_ai.Common.{
  ℕ, ◌+◌, Bool, true, false, ◌&&◌, ◌||◌, Option, none, some, List, [], ◌∷◌, Text, codes, text_eq,
  is_digit, between, includes, ◌==◌, if◌then◌else◌, all, any, filter, map,
}

pub record HeaderPair : Type 0 where
  pub name : Text
  pub value : Text

abbrev pub is_token_unit : ℕ → Bool
is_token_unit c =
    is_digit c || between b'A' b'Z' c || between b'a' b'z' c || includes c (codes "!#$%&'*+.^_`|~-")

-- TOKEN
abbrev pub is_token : Text → Bool
is_token [] = false
is_token (c ∷ name) = all is_token_unit (c ∷ name)

-- FIELD_VALUE
abbrev pub is_value_unit : ℕ → Bool
is_value_unit c = c == 9 || between 0x20 0x7e c

abbrev pub is_field_value : Text → Bool
is_field_value = all is_value_unit

abbrev pub lower_unit : ℕ → ℕ
lower_unit c = if between b'A' b'Z' c then c + 32 else c

unfoldable pub to_lower_case : Text → Text
to_lower_case = map lower_unit

abbrev pub reserved : List Text
reserved =
    codes "host" ∷ codes "content-length" ∷ codes "transfer-encoding" ∷ codes "connection" ∷ []

unfoldable pub is_reserved : Text → Bool
unfolding to_lower_case text_eq
is_reserved name = any (text_eq (to_lower_case name)) reserved

-- What `assertSendableHeaders` throws: the offending name, and never the value.
pub data HeaderError : Type 0 where
  not_a_token reserved_name forbidden_value : Text → HeaderError

-- The loop of `assertSendableHeaders`; `none` where it throws nothing.
unfoldable pub assert_sendable_headers : List HeaderPair → Option HeaderError
unfolding is_reserved
assert_sendable_headers [] = none
assert_sendable_headers (h ∷ headers) =
    let rest = assert_sendable_headers headers in
    if is_token h.name
    then if is_reserved h.name
      then some (reserved_name h.name)
      else if is_field_value h.value
      then rest
      else some (forbidden_value h.name)
    else some (not_a_token h.name)

unfoldable pub header_values : List HeaderPair → Text → List Text
unfolding to_lower_case text_eq
header_values headers name =
    map (λ h. h.value) (filter (λ h. text_eq (to_lower_case h.name) (to_lower_case name)) headers)

abbrev pub first : List Text → Option Text
first [] = none
first (x ∷ xs) = some x

unfoldable pub header_value : List HeaderPair → Text → Option Text
unfolding header_values
header_value headers name = first (header_values headers name)

-- `none` where the list has a name without a value.
unfoldable pub pairs_from_raw_headers : List Text → Option (List HeaderPair)
pairs_from_raw_headers [] = some []
pairs_from_raw_headers (name ∷ []) = none
pairs_from_raw_headers (name ∷ value ∷ raw) = elim (pairs_from_raw_headers raw) [
  | none ↦ none
  | some pairs ↦ some (record { name = name; value = value } ∷ pairs)
]
