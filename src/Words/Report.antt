-- ===== src/Words/Report.antt =====
-- The output file of findlwt.c and findlwp.c: one line for each run of records with the same word
-- (the last loop of both `main` functions, lines 184-202 of findlwt.c and 367-383 of findlwp.c).
use bilkent_os_projects.Base.{suc, List, [], ◌∷◌, ◌++◌, map, if◌then◌else◌, length, pos}
use bilkent_os_projects.Words.Text.{Text, strcmp, decimal}
use bilkent_os_projects.Words.Occurrence.{Occurrence, is_zero}
pub mod Groups

-- A run of records with one word: `all[i]` and those behind it.
pub record Group : Type 0 where
  pub first : Occurrence
  pub others : List Occurrence

-- The loop that looks for `j`, from a run that is open, and the runs behind it.
unfoldable pub groups_from : Occurrence → List Occurrence → List Occurrence → List Group
groups_from first others [] = record { first = first; others = others } ∷ []
groups_from first others (o ∷ os) =
    let longer = groups_from first (others ++ o ∷ []) os in
    let fresh = groups_from o [] os in
    if is_zero (strcmp first.word o.word)
    then longer
    else record { first = first; others = others } ∷ fresh

unfoldable pub groups : List Occurrence → List Group
groups [] = []
groups (o ∷ os) = groups_from o [] os

-- "%d-%d"
abbrev pub print_place : Occurrence → Text
print_place o = decimal o.file_index ++ b'-' ∷ decimal o.line_no

-- The places, with ", " between two of them.
abbrev pub print_places : Occurrence → List Occurrence → Text
print_places o [] = print_place o
print_places o (p ∷ ps) = print_place o ++ b',' ∷ b' ' ∷ print_places p ps

-- " (count="
abbrev pub count_text : Text
count_text = b' ' ∷ b'(' ∷ b'c' ∷ b'o' ∷ b'u' ∷ b'n' ∷ b't' ∷ b'=' ∷ []

-- "%s (count=%d): " and the places, to the end of the line
unfoldable pub print_group : Group → Text
print_group g =
    g.first.word
    ++ count_text
    ++ decimal (pos (suc (length g.others)))
    ++ b')' ∷ b':' ∷ b' ' ∷ print_places g.first g.others
    ++ b'\n' ∷ []

unfoldable pub print_groups : List Group → Text
print_groups [] = []
print_groups (g ∷ gs) = print_group g ++ print_groups gs

abbrev pub report : List Occurrence → Text
report os = print_groups (groups os)
