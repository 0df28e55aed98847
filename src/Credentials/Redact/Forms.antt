-- ===== src/Credentials/Redact/Forms.antt =====
-- The escaped forms of a secret, as packages/core/src/credentials/redact.ts takes them: what
-- `JSON.stringify` writes between its quotes, and what `encodeURIComponent` returns.
use verif_ai.Common.{
  ℕ, ◌+◌, ◌-◌, ◌*◌, ◌/◌, ◌%◌, Bool, true, false, ◌&&◌, ◌||◌, Option, none, some, [], ◌∷◌, ◌++◌,
  Text, codes, between, includes, is_digit, ltb, ◌==◌, if◌then◌else◌,
}
use mathlib.Core.Option

abbrev pub is_high : ℕ → Bool
is_high = between 0xd800 0xdbff

abbrev pub is_low : ℕ → Bool
is_low = between 0xdc00 0xdfff

abbrev pub hex_digit : ℕ → ℕ → ℕ
hex_digit letter d = if ltb d 10 then b'0' + d else letter + (d - 10)

-- A unit as \uxxxx.
abbrev pub unicode_escape : ℕ → Text
unicode_escape c =
    b'\\'
    ∷ b'u'
    ∷ hex_digit b'a' (c / 4096 % 16)
    ∷ hex_digit b'a' (c / 256 % 16)
    ∷ hex_digit b'a' (c / 16 % 16)
    ∷ hex_digit b'a' (c % 16)
    ∷ []

abbrev pub json_unit : ℕ → Text
json_unit c =
    if c == b'"' || c == b'\\'
    then b'\\' ∷ c ∷ []
    else if c == 8
    then codes "\\b"
    else if c == 9
    then codes "\\t"
    else if c == 10
    then codes "\\n"
    else if c == 12
    then codes "\\f"
    else if c == 13
    then codes "\\r"
    else if ltb c 32 || is_high c || is_low c
    then unicode_escape c
    else c ∷ []

unfoldable pub json_body : Text → Text
json_body [] = []
json_body (c ∷ []) = json_unit c
json_body (c ∷ d ∷ r) = elim (is_high c && is_low d) [
  | true ↦ c ∷ d ∷ json_body r
  | false ↦ json_unit c ++ json_body (d ∷ r)
]

abbrev pub percent_byte : ℕ → Text
percent_byte b = b'%' ∷ hex_digit b'A' (b / 16) ∷ hex_digit b'A' (b % 16) ∷ []

abbrev pub is_unreserved : ℕ → Bool
is_unreserved c =
    between b'a' b'z' c || between b'A' b'Z' c || is_digit c || includes c (codes "-_.!~*'()")

-- A code point, by its bytes in UTF-8.
abbrev pub percent_point : ℕ → Text
percent_point c =
    if is_unreserved c
    then c ∷ []
    else if ltb c 0x80
    then percent_byte c
    else if ltb c 0x800
    then percent_byte (0xc0 + c / 64) ++ percent_byte (0x80 + c % 64)
    else if ltb c 0x10000
    then percent_byte (0xe0 + c / 4096)
      ++ (percent_byte (0x80 + c / 64 % 64) ++ percent_byte (0x80 + c % 64))
    else percent_byte (0xf0 + c / 262144)
      ++ (percent_byte (0x80 + c / 4096 % 64)
          ++ (percent_byte (0x80 + c / 64 % 64) ++ percent_byte (0x80 + c % 64)))

abbrev pub pair_point : ℕ → ℕ → ℕ
pair_point high low = 0x10000 + (high - 0xd800) * 0x400 + (low - 0xdc00)

-- `none` at a lone surrogate, on which encodeURIComponent throws.
unfoldable pub percent_encoded : Text → Option Text
percent_encoded [] = some []
percent_encoded (c ∷ []) = if is_high c || is_low c then none else some (percent_point c)
percent_encoded (c ∷ d ∷ r) = elim (is_high c && is_low d) [
  | true ↦ Option.map (λ rest. percent_point (pair_point c d) ++ rest) (percent_encoded r)
  | false ↦
      if is_high c || is_low c
      then none
      else Option.map (λ rest. percent_point c ++ rest) (percent_encoded (d ∷ r))
]
