-- ===== src/Transport/Tests.antt =====
-- Runs of packages/core/src/transport at concrete inputs.
use verif_ai.Common.{◌++◌}
use verif_ai.Credentials.ApiKey.{normalise_api_key}
use verif_ai.Transport.Headers.{is_reserved, assert_sendable_headers}
use verif_ai.Transport.Headers.Sendable.{assert_sendable_headers-normalise_api_key}
use verif_ai.Common.{◌≡◌, refl, true, Option, some, List, [], ◌∷◌, ◌++◌, map, codes}
use verif_ai.Transport.Sse.Fields.{SseItem}
use verif_ai.Transport.Sse.Decoder
use verif_ai.Transport.Sse.Decoder.{Bytes, TextDecoders, create_sse_decoder}
use verif_ai.Transport.Sse.Stamps.{stamp}
use verif_ai.Transport.Sse.Stream.{push_all, whole, push_all-whole}

-- Decoders of a stream of ASCII, of which every byte is a character.
abbrev keep_valid : Unit {0} → Bytes → Option (Unit {0})
keep_valid v bytes = some tt

abbrev ascii : TextDecoders
ascii = record {
  Lenient = Unit {0};
  lenient = tt;
  decode = λ d bytes. (bytes, tt);
  decode_end = λ d. [];
  Fatal = Unit {0};
  fatal = tt;
  validate = keep_valid;
  validate_end = λ v. true;
  decode-append = λ d x y. refl;
  validate-append = λ v x y. refl;
}

abbrev first_chunk : Bytes
first_chunk = 0xfeff ∷ codes "event: delta" ++ 13 ∷ []

abbrev second_chunk : Bytes
second_chunk = 10 ∷ codes "data: {}" ++ 10 ∷ 10 ∷ codes ": ping" ++ 13 ∷ []

push_all-whole_example :
    (r once : Decoder.Decoder ascii × List SseItem) × (push_all ascii
        (create_sse_decoder ascii)
        ((first_chunk, 5) ∷ (second_chunk, 9) ∷ [])
      ≡ some r)
    × (Decoder.push ascii
          (create_sse_decoder ascii)
          (first_chunk ++ whole ascii ((second_chunk, 9) ∷ []))
          0
        ≡ some once)
    × (r.0 ≡ once.0)
    × (map (stamp 0) r.1 ≡ once.1)
push_all-whole_example =
    push_all-whole ascii first_chunk 5 ((second_chunk, 9) ∷ []) (create_sse_decoder ascii) refl

assert_sendable_headers-normalise_api_key_example :
    assert_sendable_headers
      (record { name = codes "authorization"; value = codes "Bearer " ++ codes "sk-1234" } ∷ [])
    ≡ assert_sendable_headers []
unfolding normalise_api_key is_reserved
assert_sendable_headers-normalise_api_key_example =
    assert_sendable_headers-normalise_api_key (codes " sk-1234\r\n") (codes "sk-1234")
      (codes "authorization") (codes "Bearer ") [] refl refl refl refl
