-- ===== src/Transport/Sse/Fields.antt =====
-- The state of the decoder of packages/core/src/transport/sse.ts, and what a complete line does.
use verif_ai.Common.{
  ℕ, Bool, false, ◌&&◌, Option, none, some, List, [], ◌∷◌, ◌++◌, Text, codes, text_eq, includes,
  is_digit, decimal_from, all, ◌==◌, if◌then◌else◌,
}

abbrev pub lf_unit : ℕ
lf_unit = 0x0a

abbrev pub cr_unit : ℕ
cr_unit = 0x0d

-- `[name, value]`
abbrev pub Field : Type 0
Field = Text × Text

pub data SseItem : Type 0 where
  event : Text → Text → Text → Option ℕ → List Field → ℕ → SseItem
  comment : Text → ℕ → SseItem

pub record LineEndings : Type 0 where
  pub lf : ℕ
  pub crlf : ℕ
  pub cr : ℕ

-- The variables that the scan reads and writes.
pub record State : Type 0 where
  pub endings : LineEndings
  pub line : Text
  pub pending_cr : Bool
  pub data_buffer : Text
  pub event_type : Text
  pub last_event_id : Text
  pub retry_ms : Option ℕ
  pub fields : List Field

abbrev pub initial : State
initial = record {
  endings = record { lf = 0; crlf = 0; cr = 0 };
  line = [];
  pending_cr = false;
  data_buffer = [];
  event_type = [];
  last_event_id = [];
  retry_ms = none;
  fields = [];
}

-- Removes the one space the spec allows after a colon, and no more.
abbrev pub after_colon : Text → Text
after_colon [] = []
after_colon (x ∷ xs) = if x == b' ' then xs else x ∷ xs

-- `line.indexOf(COLON)`, with both slices.
unfoldable pub cut_colon : Text → Option (Text × Text)
cut_colon [] = none
cut_colon (x ∷ xs) =
    let rest = cut_colon xs in
    if x == b':'
    then some ([], xs)
    else elim rest [ none ↦ none | some (name, value) ↦ some (x ∷ name, value) ]

unfoldable pub parse_field : Text → Field
unfolding cut_colon
parse_field line = elim (cut_colon line) [
  | none ↦ (line, [])
  | some (name, value) ↦ (name, after_colon value)
]

-- `data.slice(0, -1)`
unfoldable pub chop : Text → Text
chop [] = []
chop (x ∷ []) = []
chop (x ∷ y ∷ r) = x ∷ chop (y ∷ r)

abbrev or_message : Text → Text
or_message [] = codes "message"
or_message (x ∷ xs) = x ∷ xs

dispatched : State → ℕ → List SseItem → List SseItem
unfolding chop
dispatched s at_ms out =
    if text_eq s.data_buffer []
    then out
    else out
      ++ event (or_message s.event_type) (chop s.data_buffer) s.last_event_id s.retry_ms s.fields
          at_ms
        ∷ []

-- The last event ID survives.
unfoldable pub dispatch : State → ℕ → List SseItem → State × List SseItem
unfolding dispatched
dispatch s at_ms out = (
  record s { data_buffer = []; event_type = []; retry_ms = none; fields = [] },
  dispatched s at_ms out,
)

-- DIGITS
abbrev is_digits : Text → Bool
is_digits [] = false
is_digits (d ∷ ds) = all is_digit (d ∷ ds)

unfoldable pub process_field : State → Field → State
process_field s (name, value) =
    let s' = record s { fields = s.fields ++ (name, value) ∷ [] } in
    if text_eq name (codes "data")
    then record s' { data_buffer = s.data_buffer ++ (value ++ lf_unit ∷ []) }
    else if text_eq name (codes "event")
    then record s' { event_type = value }
    else if text_eq name (codes "id")
    then (if includes 0 value then s' else record s' { last_event_id = value })
    else if text_eq name (codes "retry") && is_digits value
    then record s' { retry_ms = some (decimal_from 0 value) }
    else s'

process_complete : State → ℕ → List SseItem → Text → State × List SseItem
unfolding dispatch process_field parse_field
process_complete s at_ms out [] = dispatch s at_ms out
process_complete s at_ms out (x ∷ xs) =
    if x == b':'
    then (s, out ++ comment (after_colon xs) at_ms ∷ [])
    else (process_field s (parse_field (x ∷ xs)), out)

-- The line is taken, then read.
unfoldable pub process_line : State → ℕ → List SseItem → State × List SseItem
unfolding process_complete
process_line s at_ms out = process_complete (record s { line = [] }) at_ms out s.line
