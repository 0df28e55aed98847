-- ===== src/Node/Body.antt =====
-- packages/node/src/body.ts: the reading of a response body. What the stream and the decoder do is a
-- sequence of events; the platform's decoders are known by the parts they give. A time on a chunk is
-- that of the event.
pub mod Reads
pub mod Delivers
pub mod Whole
use verif_ai.Common.{
  ℕ, ◌+◌, Bool, true, false, ◌&&◌, ◌||◌, not, Option, none, some, List, [], ◌∷◌, ◌++◌, Text, codes,
  text_eq, split, ltb, leb, ◌==◌, if◌then◌else◌, length, filter, any, map,
}
use verif_ai.Transport.Headers.{HeaderPair, header_values, to_lower_case}

abbrev pub Bytes : Type 0
Bytes = List ℕ

pub record BodyChunk : Type 0 where
  pub at_ms : ℕ
  pub start : ℕ
  pub end : ℕ

-- A decoder is by the coding that it undoes.
pub data ContentDecoder : Type 0 where
  gunzip inflate brotli : ContentDecoder

pub data BodyCoding : Type 0 where
  identity unsupported : BodyCoding
  decoded_by : ContentDecoder → BodyCoding

-- DECODERS
abbrev pub decoder_of : Text → Option ContentDecoder
decoder_of coding =
    if text_eq coding (codes "gzip") || text_eq coding (codes "x-gzip")
    then some gunzip
    else if text_eq coding (codes "deflate")
    then some inflate
    else if text_eq coding (codes "br")
    then some brotli
    else none

-- The white space and line ends that `trim` takes away.
abbrev pub is_blank : ℕ → Bool
is_blank c =
    c == 9
    || c == 10
    || c == 11
    || c == 12
    || c == 13
    || c == 32
    || c == 160
    || c == 5760
    || leb 8192 c && leb c 8202
    || c == 8232
    || c == 8233
    || c == 8239
    || c == 8287
    || c == 12288
    || c == 65279

unfoldable pub trim_left : Text → Text
trim_left [] = []
trim_left (c ∷ rest) = let shorter = trim_left rest in if is_blank c then shorter else c ∷ rest

abbrev pub none_left : Text → Bool
none_left [] = true
none_left (c ∷ rest) = false

unfoldable pub trim_right : Text → Text
trim_right [] = []
trim_right (c ∷ rest) =
    let kept = trim_right rest in if none_left kept && is_blank c then [] else c ∷ kept

unfoldable pub flat : List (List Text) → List Text
flat [] = []
flat (p ∷ pieces) = p ++ flat pieces

abbrev pub coding_of : List Text → BodyCoding
coding_of [] = identity
coding_of (only ∷ []) = elim (decoder_of only) [ none ↦ unsupported | some d ↦ decoded_by d ]
coding_of (a ∷ b ∷ more) = unsupported

unfoldable pub body_coding : List HeaderPair → BodyCoding
unfolding header_values split flat trim_left trim_right to_lower_case text_eq
body_coding headers = coding_of (
    filter (λ c. not (none_left c || text_eq c (codes "identity")))
      (map (λ c. to_lower_case (trim_right (trim_left c)))
        (flat (map (split b',') (header_values headers (codes "content-encoding"))))))

pub data BodyOutcome : Type 0 where
  complete : Bytes → List BodyChunk → ℕ → BodyOutcome
  body_too_large unreadable_body : BodyOutcome

-- The variables of `createCollector`.
pub record Collector : Type 0 where
  pub parts : List Bytes
  pub chunks : List BodyChunk
  pub total : ℕ

abbrev pub empty_collector : Collector
empty_collector = record { parts = []; chunks = []; total = 0 }

abbrev pub is_empty_part : Bytes → Bool
is_empty_part [] = true
is_empty_part (b ∷ part) = false

-- `add`, with whether the part was within the limit.
unfoldable pub add_part : ℕ → ℕ → Bytes → Collector → Collector × Bool
add_part max_bytes now part collector =
    if is_empty_part part
    then (collector, true)
    else if ltb max_bytes (collector.total + length part)
    then (collector, false)
    else (
      record {
        parts = collector.parts ++ part ∷ [];
        chunks =
            collector.chunks
            ++ record { at_ms = now; start = collector.total; end = collector.total + length part }
              ∷ [];
        total = collector.total + length part;
      },
      true,
    )

unfoldable pub concat : List Bytes → Bytes
concat [] = []
concat (p ∷ parts) = p ++ concat parts

-- `collector.finish()`
abbrev pub finish_body : ℕ → Collector → BodyOutcome
finish_body now collector = complete (concat collector.parts) collector.chunks now

-- What the stream does, and what a decoder that was started does.
pub data BodyEvent : Type 0 where
  raw decoded : Bytes → BodyEvent
  ended errored decoder_ended decoder_errored : BodyEvent
  closed : Bool → BodyEvent

-- The variables of `readBody`.
pub record Reader : Type 0 where
  pub collector : Collector
  pub has_decoder : Bool
  pub outcome : Option BodyOutcome

abbrev pub new_reader : Reader
new_reader = record { collector = empty_collector; has_decoder = false; outcome = none }

-- `settle`: the first outcome stays.
abbrev pub settle_body : BodyOutcome → Option BodyOutcome → Option BodyOutcome
settle_body outcome none = some outcome
settle_body outcome (some first) = some first

-- `accept`
abbrev pub accept : ℕ → ℕ → Bytes → Reader → Reader
accept max_bytes now part reader =
    let (collector, fits) = add_part max_bytes now part reader.collector in
    record reader {
      collector = collector;
      outcome = if fits then reader.outcome else settle_body body_too_large reader.outcome;
    }

abbrev pub settled_with : BodyOutcome → Reader → Reader
settled_with outcome reader = record reader { outcome = settle_body outcome reader.outcome }

abbrev pub is_identity : BodyCoding → Bool
is_identity identity = true
is_identity _ = false

-- An event of a decoder comes only once it was started.
unfoldable pub on_event : BodyCoding → ℕ → ℕ → BodyEvent → Reader → Reader
unfolding add_part
on_event coding max_bytes now (raw part) reader =
    if is_identity coding
    then accept max_bytes now part reader
    else record reader { has_decoder = true }
on_event coding max_bytes now (decoded part) reader =
    if reader.has_decoder then accept max_bytes now part reader else reader
on_event coding max_bytes now ended reader =
    if reader.has_decoder then reader else settled_with (finish_body now reader.collector) reader
on_event coding max_bytes now decoder_ended reader =
    if reader.has_decoder then settled_with (finish_body now reader.collector) reader else reader
on_event coding max_bytes now errored reader = settled_with unreadable_body reader
on_event coding max_bytes now decoder_errored reader =
    if reader.has_decoder then settled_with unreadable_body reader else reader
on_event coding max_bytes now (closed is_complete) reader =
    if is_complete then reader else settled_with unreadable_body reader

unfoldable pub read_body : BodyCoding → ℕ → List (ℕ × BodyEvent) → Reader → Reader
unfolding on_event
read_body coding max_bytes [] reader = reader
read_body coding max_bytes ((now, event) ∷ events) reader =
    read_body coding max_bytes events (on_event coding max_bytes now event reader)
