-- ===== src/Words/Record.antt =====
-- The line in which a child of findlwp.c sends a record ("%s %d %d\n", lines 174-181), and
-- `parse_record_line`, by which the parent reads it.
use bilkent_os_projects.Base.{Option, none, some, ◌>>=◌, List, [], ◌∷◌, ◌++◌}
use bilkent_os_projects.Words.Text.{Text, skip_spaces, span_word, strtol, to_int, decimal}
use bilkent_os_projects.Words.Occurrence.{Occurrence}
pub mod RoundTrip

-- The line without its newline, and with it.
abbrev pub print_fields : Occurrence → Text
print_fields o = o.word ++ b' ' ∷ (decimal o.file_index ++ b' ' ∷ decimal o.line_no)

unfoldable pub print_record : Occurrence → Text
print_record o = print_fields o ++ b'\n' ∷ []

abbrev pub not_empty : Text → Option Text
not_empty [] = none
not_empty (c ∷ s) = some (c ∷ s)

-- Each `none` is a `return -1`. A word that starts at a byte that is no space is not empty.
unfoldable pub parse_record_line : Text → Option Occurrence
parse_record_line line = do
  start ← not_empty (skip_spaces line)
  let (word, behind) = span_word start
  p ← not_empty (skip_spaces behind)
  (file_idx, endptr) ← strtol p
  q ← not_empty (skip_spaces endptr)
  (line_no, end) ← strtol q
  some (record { file_index = to_int file_idx; line_no = to_int line_no; word = word })
