-- ===== src/Credentials/ApiKey.antt =====
-- packages/core/src/credentials/api-key.ts: the one check of an API key.
pub mod Accepts
use verif_ai.Common.{
  ℕ, Bool, true, false, ◌&&◌, ◌||◌, List, [], ◌∷◌, Text, ltb, leb, ◌==◌, if◌then◌else◌, length, all,
  between,
}

pub data ApiKeyProblem : Type 0 where
  empty too_short too_long invalid_character : ApiKeyProblem

pub data ApiKeyResult : Type 0 where
  accepted : Text → ApiKeyResult
  refused : ApiKeyProblem → ApiKeyResult

abbrev pub min_api_key_length : ℕ
min_api_key_length = 4

abbrev pub max_api_key_length : ℕ
max_api_key_length = 4096

-- Space, tab, CR and LF.
abbrev pub is_paste_whitespace : ℕ → Bool
is_paste_whitespace c = c == 32 || c == 9 || c == 13 || c == 10

-- The first loop of `trimPasteWhitespace`, on what is left of the input.
unfoldable pub trim_front : Text → Text
trim_front [] = []
trim_front (c ∷ rest) =
    let shorter = trim_front rest in if is_paste_whitespace c then shorter else c ∷ rest

abbrev pub is_nil : Text → Bool
is_nil [] = true
is_nil (c ∷ rest) = false

-- The second loop: a unit at the end goes while it is white.
unfoldable pub trim_back : Text → Text
trim_back [] = []
trim_back (c ∷ rest) =
    let kept = trim_back rest in if is_nil kept && is_paste_whitespace c then [] else c ∷ kept

unfoldable pub trim_paste_whitespace : Text → Text
unfolding trim_front trim_back
trim_paste_whitespace input = trim_back (trim_front input)

abbrev pub is_visible : ℕ → Bool
is_visible = between 0x21 0x7e

abbrev pub is_visible_ascii : Text → Bool
is_visible_ascii = all is_visible

abbrev pub checked : Text → ApiKeyResult
checked key =
    if is_nil key
    then refused empty
    else if ltb (length key) min_api_key_length
    then refused too_short
    else if ltb max_api_key_length (length key)
    then refused too_long
    else if is_visible_ascii key
    then accepted key
    else refused invalid_character

unfoldable pub normalise_api_key : Text → ApiKeyResult
unfolding trim_paste_whitespace
normalise_api_key input = checked (trim_paste_whitespace input)
