-- ===== src/Transport/Sse/Scan.antt =====
-- The loop over decoded text of packages/core/src/transport/sse.ts.
use verif_ai.Common.{ℕ, ◌+◌, true, false, List, [], ◌∷◌, ◌++◌, Text, ◌==◌, if◌then◌else◌}
use verif_ai.Transport.Sse.Fields.{SseItem, State, lf_unit, cr_unit, process_line}

abbrev pub count_lf : State → State
count_lf s = record s { endings = record (s.endings) { lf = s.endings.lf + 1 } }

abbrev pub count_crlf : State → State
count_crlf s = record s { endings = record (s.endings) { crlf = s.endings.crlf + 1 } }

abbrev pub count_cr : State → State
count_cr s = record s { endings = record (s.endings) { cr = s.endings.cr + 1 } }

-- How the loop reads one code unit.
pub data Kind : Type 0 where
  plain feed return : Kind

unfoldable pub kind : ℕ → Kind
kind c = if c == lf_unit then feed else if c == cr_unit then return else plain

-- `line += decoded.slice(start, at)`
abbrev pub keep : Text → State → State
keep slice s = record s { line = s.line ++ slice }

-- Settles a CR that the previous chunk left open; returns what is left to scan.
unfoldable pub settle_pending_cr : State → Text → State × Text
settle_pending_cr s [] = (s, [])
settle_pending_cr s (c ∷ rest) =
    if s.pending_cr
    then elim (kind c) [
      | feed ↦ (count_crlf (record s { pending_cr = false }), rest)
      | _ ↦ (count_cr (record s { pending_cr = false }), c ∷ rest)
    ]
    else (s, c ∷ rest)

-- The loop of `scan`, `passTerminator` included: `slice` is the text from `start` up to `at`, and
-- the last argument what stands from `at` on. A CR that ends the text is left open.
unfoldable pub scan_from : ℕ → State → List SseItem → Text → Text → State × List SseItem
scan_from at_ms s out slice [] = (keep slice s, out)
scan_from at_ms s out slice (c ∷ []) =
    let (s', out') = process_line (keep slice s) at_ms out in
    elim (kind c) [
      | plain ↦ (keep (slice ++ c ∷ []) s, out)
      | feed ↦ (count_lf s', out')
      | return ↦ (record s' { pending_cr = true }, out')
    ]
scan_from at_ms s out slice (c ∷ d ∷ rest) =
    let (s', out') = process_line (keep slice s) at_ms out in
    elim (kind c) [
      | plain ↦ scan_from at_ms s out (slice ++ c ∷ []) (d ∷ rest)
      | feed ↦ scan_from at_ms (count_lf s') out' [] (d ∷ rest)
      | return ↦ elim (kind d) [
        | feed ↦ scan_from at_ms (count_crlf s') out' [] rest
        | _ ↦ scan_from at_ms (count_cr s') out' [] (d ∷ rest)
      ]
    ]

unfoldable pub scan : ℕ → State → List SseItem → Text → State × List SseItem
unfolding kind settle_pending_cr scan_from
scan at_ms s out decoded =
    let (s', rest) = settle_pending_cr s decoded in scan_from at_ms s' out [] rest
