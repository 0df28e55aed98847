-- ===== src/Transport/Sse/Decoder.antt =====
-- The two methods of the decoder of packages/core/src/transport/sse.ts, over the platform's
-- streaming text decoders.
use verif_ai.Common.{
  ℕ, ◌≡◌, Bool, true, false, ◌||◌, not, Option, none, some, List, [], ◌∷◌, ◌++◌, Text, text_eq,
  ◌==◌, if◌then◌else◌,
}
use verif_ai.Transport.Sse.Fields.{SseItem, State, LineEndings, initial}
use verif_ai.Transport.Sse.Scan.{scan, count_cr}

abbrev pub Bytes : Type 0
Bytes = List ℕ

-- `TextDecoder` with `stream: true`: the lenient one, which never throws, and the fatal one, which
-- throws (`none`, `false`) on a malformed byte. A streaming decoder reads two chunks as it reads
-- their concatenation.
pub record TextDecoders : Type 1 where
  pub Lenient : Type 0
  pub lenient : Lenient
  pub decode : Lenient → Bytes → Text × Lenient
  pub decode_end : Lenient → Text
  pub Fatal : Type 0
  pub fatal : Fatal
  pub validate : Fatal → Bytes → Option Fatal
  pub validate_end : Fatal → Bool
  pub decode-append :
      (d : Lenient) (x y : Bytes)
      → decode d (x ++ y)
        ≡ ((decode d x).0 ++ (decode (decode d x).1 y).0, (decode (decode d x).1 y).1)
  pub validate-append :
      (v : Fatal) (x y : Bytes)
      → validate v (x ++ y) ≡ elim (validate v x) [ none ↦ none | some w ↦ validate w y ]

abbrev pub bom_unit : ℕ
bom_unit = 0xfeff

pub record SseSummary : Type 0 where
  pub line_endings : LineEndings
  pub unterminated : Bool
  pub invalid_utf8 : Bool
  pub had_bom : Bool

module _ (platform : TextDecoders) where
  open platform use {Lenient, lenient, decode, decode_end, Fatal, fatal, validate, validate_end}

  pub record Decoder : Type 0 where
    pub text : Lenient
    pub validator : Option Fatal
    pub state : State
    pub invalid : Bool
    pub bom : Bool
    pub started : Bool
    pub finished : Bool

  abbrev pub create_sse_decoder : Decoder
  create_sse_decoder = record {
    text = lenient;
    validator = some fatal;
    state = initial;
    invalid = false;
    bom = false;
    started = false;
    finished = false;
  }

  -- Once malformed, the stream stays malformed.
  unfoldable pub check_bytes : Option Fatal → Bool → Bytes → Option Fatal × Bool
  check_bytes none invalid bytes = (none, invalid)
  check_bytes (some v) invalid bytes = elim (validate v bytes) [
    | none ↦ (none, true)
    | some w ↦ (some w, invalid)
  ]

  unfoldable pub check_end : Option Fatal → Bool → Bool
  check_end none invalid = invalid
  check_end (some v) invalid = if validate_end v then invalid else true

  -- `stripBom`, on whether the stream has started and whether a mark was seen.
  unfoldable pub strip_bom : Bool → Bool → Text → Bool × Bool × Text
  strip_bom started bom [] = (started, bom, [])
  strip_bom started bom (c ∷ rest) =
      if started
      then (started, bom, c ∷ rest)
      else if c == bom_unit
      then (true, true, rest)
      else (true, bom, c ∷ rest)

  -- The body of `push`, on an open decoder.
  unfoldable pub pushed : Decoder → Bytes → ℕ → Decoder × List SseItem
  pushed d bytes at_ms =
      let (validator, invalid) = check_bytes d.validator d.invalid bytes in
      let (decoded, text) = decode d.text bytes in
      let (started, bom, stripped) = strip_bom d.started d.bom decoded in
      let (state, out) = scan at_ms d.state [] stripped in
      (
        record d {
          text = text;
          validator = validator;
          state = state;
          invalid = invalid;
          bom = bom;
          started = started;
        },
        out,
      )

  -- `none` where `assertOpen` throws.
  unfoldable pub push : Decoder → Bytes → ℕ → Option (Decoder × List SseItem)
  unfolding pushed
  push d bytes at_ms = if d.finished then none else some (pushed d bytes at_ms)

  abbrev is_empty {ℓ} : {A : Type ℓ} → List A → Bool
  is_empty [] = true
  is_empty (_ ∷ _) = false

  -- The variables as `finish` leaves them before it builds the summary.
  abbrev closed : State → Text → State
  closed s tail =
      let s' = record s { line = s.line ++ tail } in
      if s.pending_cr then count_cr (record s' { pending_cr = false }) else s'

  unfoldable pub finish : Decoder → Option (Decoder × SseSummary)
  unfolding check_end strip_bom
  finish d =
      if d.finished
      then none
      else (let invalid = check_end d.validator d.invalid in
          let (started, bom, tail) = strip_bom d.started d.bom (decode_end d.text) in
          let s = closed d.state tail in
          some (
            record d {
              validator = if invalid then none else d.validator;
              state = s;
              invalid = invalid;
              bom = bom;
              started = started;
              finished = true;
            },
            record {
              line_endings = s.endings;
              unterminated = not (text_eq s.line []) || not (is_empty s.fields);
              invalid_utf8 = invalid;
              had_bom = bom;
            },
          ))
