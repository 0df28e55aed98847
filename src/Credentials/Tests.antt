-- ===== src/Credentials/Tests.antt =====
-- Runs of packages/core/src/credentials at concrete inputs.
use verif_ai.Common.{
  ◌≡◌, ◌↔◌, refl, Bool, true, false, inl, [], ◌∷◌, ◌++◌, Text, codes, if◌then◌else◌, Elem, text_eq,
}
use verif_ai.Credentials.Redact.{has_text, redact, redaction_marker, forms_of, compile}
use verif_ai.Credentials.Redact.Forms.{json_body, percent_encoded}
use verif_ai.Credentials.Redact.Reference.{masked, covered}
use verif_ai.Credentials.Redact.Covers.{marks, redact-masked}
use verif_ai.Credentials.Redact.Hides.{hidden, redact-hides}
use verif_ai.Credentials.ApiKey.{normalise_api_key, accepted, refused, invalid_character}
use verif_ai.Credentials.ApiKey.Accepts.{Around, IsKey, normalise_api_key_iff}

abbrev long_key : Text
long_key = codes "sk-proj-0123456789abcdef"

abbrev short_key : Text
short_key = codes "sk-1234"

abbrev said : Text → Text → Text
said a b = codes "key: " ++ (a ++ b)

long_key_is_gone : redact (long_key ∷ []) (said long_key (codes ".")) ≡ codes "key: [REDACTED]."
unfolding redact percent_encoded text_eq json_body
long_key_is_gone = refl

-- A window of the key is enough, and two runs that touch are one.
cut_key_is_gone :
    redact (long_key ∷ []) (codes "sk-proj-01234567...sk-proj-0123456789abcdef!")
    ≡ codes "[REDACTED]...[REDACTED]!"
unfolding redact percent_encoded text_eq json_body
cut_key_is_gone = refl

short_piece_is_gone :
    redact (short_key ∷ []) (codes "sk-1... and *1234 but sk-1")
    ≡ codes "[REDACTED]... and *[REDACTED] but sk-1"
unfolding redact percent_encoded text_eq json_body
short_piece_is_gone = refl

a_percent : redact (codes "a/b c" ∷ []) (codes "x=a%2Fb%20c") ≡ codes "x=[REDACTED]"
unfolding redact percent_encoded text_eq json_body
a_percent = refl

a_quote : json_body (codes "a\"\\" ++ 10 ∷ 1 ∷ []) ≡ codes "a\\\"\\\\\\n\\u0001"
unfolding json_body
a_quote = refl

redact-masked_example :
    redact (short_key ∷ []) (said short_key [])
    ≡ masked
        (covered (marks (compile (short_key ∷ [])) (said short_key [])))
        0
        false
        (said short_key [])
redact-masked_example = redact-masked (short_key ∷ []) (said short_key [])

short_key_is_a_form : Elem short_key (forms_of short_key)
unfolding forms_of percent_encoded text_eq json_body has_text
short_key_is_a_form = inl refl

redact-hides_example :
    (inside : Bool) × (redact (short_key ∷ []) (codes "key: " ++ (short_key ++ codes "."))
      ≡ masked
          (hidden (short_key ∷ []) (codes "key: " ++ (short_key ++ codes ".")))
          0
          false
          (codes "key: ")
        ++ ((if inside then [] else redaction_marker)
            ++ masked
                (hidden (short_key ∷ []) (codes "key: " ++ (short_key ++ codes ".")))
                12
                true
                (codes ".")))
redact-hides_example =
    redact-hides (short_key ∷ []) b's' (codes "k-1234") short_key (codes "key: ") (codes ".")
      (inl refl) short_key_is_a_form

pasted_key : normalise_api_key (codes " sk-1234\r\n") ≡ accepted short_key
unfolding normalise_api_key
pasted_key = refl

split_key : normalise_api_key (codes "sk-12\r\nhost: x") ≡ refused invalid_character
unfolding normalise_api_key
split_key = refl

normalise_api_key_iff_example :
    (normalise_api_key (codes " sk-1234\r\n") ≡ accepted short_key)
    ↔ (Around (codes " sk-1234\r\n") short_key × IsKey short_key)
normalise_api_key_iff_example = normalise_api_key_iff (codes " sk-1234\r\n") short_key
