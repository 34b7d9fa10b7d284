-- ===== src/Words/Scan.antt =====
-- What findlwt.c and findlwp.c do with one input file (`makeInputFilename`, and the loops over
-- `getline` and `strtok_r` of `worker` and `child_process`), and their system calls.
use bilkent_os_projects.Base.{
  ℕ, suc, ◌+◌, Bool, true, false, ◌&&◌, Option, none, some, List, [], ◌∷◌, ◌++◌, if◌then◌else◌, leb,
  ltb, length, ℤ, pos, negsuc, pos_part, neg_part,
}
use bilkent_os_projects.Words.Text.{Text, c_string, tokens_from, lines_from, decimal, to_int}
use bilkent_os_projects.Words.Occurrence.{Occurrence, OccurrenceVec, empty, occ_push}
pub mod Laws

-- The system below a run: the contents of the files that can be opened for reading, the threads (or
-- pipes and children) that can be made, the files that can be opened for writing.
pub record System : Type 0 where
  pub input : Text → Option Text
  pub starts : ℕ → Bool
  pub writable : Text → Bool

-- "%s%d" in a buffer of 512 bytes. `none` stands for the exit that follows a name that is too long.
unfoldable pub make_input_filename : Text → ℕ → Option Text
make_input_filename prefix i =
    let name = prefix ++ decimal (pos i) in if ltb (length name) 512 then some name else none

abbrev pub at_least : ℤ → ℤ → Bool
at_least a b = leb (pos_part b + neg_part a) (pos_part a + neg_part b)

-- The range test on an argument, from `low` to `high`.
abbrev pub in_range : ℤ → ℕ → ℕ → Bool
in_range (pos n) low high = leb low n && leb n high
in_range (negsuc n) low high = false

unfoldable pub push_tokens : OccurrenceVec → ℤ → ℕ → ℕ → List Text → OccurrenceVec
push_tokens v k i line [] = v
push_tokens v k i line (t ∷ ts) =
    let pushed = occ_push v (record { file_index = pos i; line_no = pos line; word = t }) in
    push_tokens (if at_least (to_int (pos (length t))) k then pushed else v) k i line ts

-- The loop over `getline`, from the number of lines read.
unfoldable pub scan_lines : OccurrenceVec → ℤ → ℕ → ℕ → List Text → OccurrenceVec
scan_lines v k i line [] = v
scan_lines v k i line (l ∷ ls) =
    let read = push_tokens v k i (suc line) (tokens_from [] (c_string l)) in
    scan_lines read k i (suc line) ls

abbrev pub scan_file : ℤ → ℕ → Text → OccurrenceVec
scan_file k i contents = scan_lines empty k i 0 (lines_from [] contents)
