-- ===== src/Credentials/Redact.antt =====
-- packages/core/src/credentials/redact.ts: the forms of a secret, the patterns that are looked for,
-- and the replacement of what they match. Spans are in code units.
pub mod Forms
pub mod Reference
pub mod Merge
pub mod Replace
pub mod Windows
pub mod Lengths
pub mod Compile
pub mod Knows
pub mod Covers
pub mod Shifted
pub mod Hides
use verif_ai.Common.{
  ℕ, zero, suc, ◌+◌, ◌-◌, max, Bool, true, false, ◌&&◌, ◌||◌, Option, none, some, List, [], ◌∷◌,
  ◌++◌, Text, codes, text_eq, leb, ltb, ◌==◌, if◌then◌else◌, length, any, take, drop,
}
use verif_ai.Credentials.Redact.Forms.{json_body, percent_encoded}

abbrev pub redaction_marker : Text
redaction_marker = codes "[REDACTED]"

abbrev pub partial_match_length : ℕ
partial_match_length = 16

abbrev pub min_truncated_length : ℕ
min_truncated_length = 4

-- `...`, U+2026 and `*`.
abbrev pub truncation_markers : List Text
truncation_markers = codes "..." ∷ (0x2026 ∷ []) ∷ codes "*" ∷ []

pub record Needle : Type 0 where
  pub find : Text
  pub start : ℕ
  pub end : ℕ

pub record Patterns : Type 0 where
  pub windows : List Text
  pub needles : List Needle

pub record Span : Type 0 where
  pub start : ℕ
  pub end : ℕ

unfoldable pub has_text : List Text → Text → Bool
has_text texts text = any (text_eq text) texts

-- The elements of a Set made of a list, in its order.
unfoldable pub distinct_from : List Text → List Text → List Text
distinct_from seen [] = []
distinct_from seen (x ∷ xs) = elim (has_text seen x) [
  | true ↦ distinct_from seen xs
  | false ↦ x ∷ distinct_from (x ∷ seen) xs
]

abbrev pub forms_with : Text → Option Text → List Text
forms_with secret none = secret ∷ json_body secret ∷ []
forms_with secret (some encoded) = secret ∷ json_body secret ∷ encoded ∷ []

unfoldable pub forms_of : Text → List Text
unfolding distinct_from
forms_of secret = distinct_from [] (forms_with secret (percent_encoded secret))

-- The two needles of each marker for a piece of this length.
abbrev pub cut_needles : Text → ℕ → List Text → List Needle
cut_needles form size [] = []
cut_needles form size (marker ∷ markers) =
    record { find = take size form ++ marker; start = 0; end = size }
    ∷ record {
      find = marker ++ drop (length form - size) form;
      start = length marker;
      end = length marker + size;
    }
    ∷ cut_needles form size markers

unfoldable pub pieces_from : Text → ℕ → ℕ → List Needle
pieces_from form size zero = []
pieces_from form size (suc more) =
    cut_needles form size truncation_markers ++ pieces_from form (suc size) more

unfoldable pub short_needles : Text → List Needle
unfolding pieces_from
short_needles form =
    record { find = form; start = 0; end = length form }
    ∷ pieces_from form min_truncated_length (length form - min_truncated_length)

-- Every window of a form, from the first on.
unfoldable pub windows_of : Text → List Text
windows_of [] = []
windows_of (c ∷ form) =
    let rest = windows_of form in
    if leb partial_match_length (length (c ∷ form))
    then take partial_match_length (c ∷ form) ∷ rest
    else []

abbrev pub same_needle : Needle → Needle → Bool
same_needle a b = a.start == b.start && a.end == b.end && text_eq a.find b.find

-- `needles.set`, under a key that holds all of a needle.
abbrev pub set_needle : Needle → List Needle → List Needle
set_needle needle needles =
    if any (same_needle needle) needles then needles else needles ++ needle ∷ []

unfoldable pub set_needles : List Needle → List Needle → List Needle
set_needles [] needles = needles
set_needles (n ∷ more) needles = set_needles more (set_needle n needles)

abbrev pub add_form : Bool → Text → Patterns → Patterns
add_form is_long form patterns =
    if is_long
    then record patterns { windows = patterns.windows ++ windows_of form }
    else record patterns { needles = set_needles (short_needles form) patterns.needles }

unfoldable pub add_forms : Bool → List Text → Patterns → Patterns
unfolding set_needles short_needles windows_of
add_forms is_long [] patterns = patterns
add_forms is_long (form ∷ forms) patterns = add_forms is_long forms (add_form is_long form patterns)

unfoldable pub add_secret : Text → Patterns → Patterns
unfolding add_forms forms_of
add_secret [] patterns = patterns
add_secret (c ∷ secret) patterns =
    add_forms (leb partial_match_length (length (c ∷ secret))) (forms_of (c ∷ secret)) patterns

unfoldable pub add_secrets : List Text → Patterns → Patterns
unfolding add_secret
add_secrets [] patterns = patterns
add_secrets (s ∷ secrets) patterns = add_secrets secrets (add_secret s patterns)

unfoldable pub compile : List Text → Patterns
unfolding add_secrets distinct_from
compile secrets = add_secrets (distinct_from [] secrets) (record { windows = []; needles = [] })

abbrev pub is_window : List Text → Text → Bool
is_window windows rest =
    leb partial_match_length (length rest) && has_text windows (take partial_match_length rest)

-- `start` and `end` while no window has matched, -1 in the source, are `none`.
abbrev pub open_run : Option Span → List Span
open_run none = []
open_run (some span) = span ∷ []

-- A window matches at this place: what is finished by it, and the run it is in.
abbrev pub finished_runs : ℕ → Option Span → List Span
finished_runs at none = []
finished_runs at (some span) = if ltb span.end at then span ∷ [] else []

abbrev pub matched : ℕ → Option Span → Span
matched at none = record { start = at; end = at + partial_match_length }
matched at (some span) =
    if ltb span.end at
    then record { start = at; end = at + partial_match_length }
    else record { start = span.start; end = at + partial_match_length }

-- The loop of `windowSpans`, on the text from a place on.
unfoldable pub window_spans_from : List Text → ℕ → Text → Option Span → List Span
unfolding has_text
window_spans_from windows at [] open_span = open_run open_span
window_spans_from windows at (c ∷ rest) open_span = elim (is_window windows (c ∷ rest)) [
  | true ↦
      finished_runs at open_span
      ++ window_spans_from windows (suc at) rest (some (matched at open_span))
  | false ↦ window_spans_from windows (suc at) rest open_span
]

abbrev pub starts_with : Text → Text → Bool
starts_with [] rest = true
starts_with (c ∷ find) [] = false
starts_with (c ∷ find) (d ∷ rest) = c == d && starts_with find rest

-- Each place that `text.indexOf(find, at + 1)` comes to in turn.
unfoldable pub occurrences_from : Needle → ℕ → Text → List Span
occurrences_from needle at [] = []
occurrences_from needle at (c ∷ rest) =
    let more = occurrences_from needle (suc at) rest in
    if starts_with needle.find (c ∷ rest)
    then record { start = at + needle.start; end = at + needle.end } ∷ more
    else more

unfoldable pub needle_spans : Text → List Needle → List Span
unfolding occurrences_from
needle_spans text [] = []
needle_spans text (n ∷ needles) = occurrences_from n 0 text ++ needle_spans text needles

-- `sort` by the start, which keeps the order of equal ones.
unfoldable pub insert : Span → List Span → List Span
insert span [] = span ∷ []
insert span (s ∷ spans) =
    let rest = insert span spans in if leb span.start s.start then span ∷ s ∷ spans else s ∷ rest

unfoldable pub sorted : List Span → List Span
unfolding insert
sorted [] = []
sorted (s ∷ spans) = insert s (sorted spans)

-- The loop of `mergeSpans` from its second round on, with the last of the merged.
unfoldable pub merge_into : Span → List Span → List Span
merge_into last [] = last ∷ []
merge_into last (s ∷ spans) = elim (leb s.start last.end) [
  | true ↦ merge_into (record last { end = max last.end s.end }) spans
  | false ↦ last ∷ merge_into s spans
]

unfoldable pub merge_sorted : List Span → List Span
unfolding merge_into
merge_sorted [] = []
merge_sorted (s ∷ spans) = merge_into s spans

unfoldable pub merge_spans : List Span → List Span
unfolding merge_sorted sorted
merge_spans spans = merge_sorted (sorted spans)

-- text.slice(from, to)
abbrev pub slice : Text → ℕ → ℕ → Text
slice text from to = take (to - from) (drop from text)

unfoldable pub replace_from : Text → ℕ → List Span → Text
replace_from text cursor [] = drop cursor text
replace_from text cursor (s ∷ spans) =
    slice text cursor s.start ++ (redaction_marker ++ replace_from text s.end spans)

unfoldable pub replace_spans : Text → List Span → Text
unfolding replace_from
replace_spans text spans = replace_from text 0 spans

abbrev pub spans_in : Patterns → Text → List Span
spans_in patterns text =
    window_spans_from patterns.windows 0 text none ++ needle_spans text patterns.needles

abbrev pub unless_none : List Span → Text → Text
unless_none [] text = text
unless_none (s ∷ spans) text = replace_spans text (merge_spans (s ∷ spans))

abbrev pub with_patterns : Patterns → Text → Text
with_patterns patterns text = unless_none (spans_in patterns text) text

abbrev pub is_empty : {A : Type 0} → List A → Bool
is_empty [] = true
is_empty (x ∷ xs) = false

-- The redactor of `createRedactor(secrets)`, at a text.
unfoldable pub redact : List Text → Text → Text
unfolding compile window_spans_from needle_spans merge_spans replace_spans
redact secrets text =
    let patterns = compile secrets in
    if is_empty patterns.windows && is_empty patterns.needles
    then text
    else with_patterns patterns text
