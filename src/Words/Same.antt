-- ===== src/Words/Same.antt =====
-- When findlwt.c and findlwp.c write the same file: the records that both find. Children: `Found` (what
-- each program makes of them), `Output` (the files).
use bilkent_os_projects.Base.{
  ℕ, zero, suc, ◌<◌, ◌≤◌, ◌≡◌, ◌≢◌, true, Option, none, some, List, [], ◌∷◌, ◌++◌, length, All, ℤ,
}
use bilkent_os_projects.Words.Text.{Text, lines_from}
use bilkent_os_projects.Words.Occurrence.{Occurrence}
use bilkent_os_projects.Words.Scan.{System, make_input_filename, scan_file}
use bilkent_os_projects.Words.Pipe.{WriteResult}
use bilkent_os_projects.Words.Pipe.Writing.{NoFailure, progress, print_records}
pub mod Found
pub mod Output

-- The records of one input file. A file that does not open has none.
unfoldable pub found : System → Text → ℤ → ℕ → List Occurrence
found sys prefix k i = elim (make_input_filename prefix i) [
  | none ↦ []
  | some name ↦ elim (sys.input name) [ none ↦ [] | some contents ↦ (scan_file k i contents).items ]
]

-- The records of the files `i + 1` to `i + n`.
unfoldable pub all_found : System → Text → ℤ → ℕ → ℕ → List Occurrence
all_found sys prefix k i zero = []
all_found sys prefix k i (suc n) = found sys prefix k (suc i) ++ all_found sys prefix k (suc i) n

-- A byte that `isspace` accepts is a delimiter of `strtok_r`: neither vertical tab nor form feed.
abbrev pub IsPlainByte : ℕ → Type 0
IsPlainByte c = (c ≢ 11) × (c ≢ 12)

-- Thread, pipe and child `i` can be made, the name of file `i` fits its buffer, the file, if it opens,
-- has plain bytes only and fewer than 2^31 lines, and the child's calls of `write` meet no error and
-- bring it to its end.
pub record IsReady (sys : System) (prefix : Text) (k : ℤ) (writes : ℕ → List WriteResult) (i : ℕ)
    : Type 0 where
  pub starts : sys.starts i ≡ true
  pub name : Text
  pub named : make_input_filename prefix i ≡ some name
  pub plain : (contents : Text) → sys.input name ≡ some contents → All IsPlainByte contents
  pub short :
      (contents : Text)
      → sys.input name ≡ some contents
      → length (lines_from [] contents) < 2147483648
  pub safe : NoFailure (writes i)
  pub enough : length (print_records (found sys prefix k i)) ≤ progress (writes i)

abbrev pub AllReady : System → Text → ℤ → (ℕ → List WriteResult) → ℕ → ℕ → Type 0
AllReady sys prefix k writes i zero = Unit
AllReady sys prefix k writes i (suc n) =
    IsReady sys prefix k writes (suc i) × AllReady sys prefix k writes (suc i) n
