-- ===== src/Words/Threads.antt =====
-- findlwt.c: one thread for each input file, then the merge of what they found.
use bilkent_os_projects.Base.{
  ℕ, zero, suc, Bool, true, false, not, Option, none, some, ◌>>=◌, List, [], ◌∷◌, if◌then◌else◌,
  ltb, length, ℤ, pos_part,
}
use bilkent_os_projects.Words.Text.{Text, atoi}
use bilkent_os_projects.Words.Occurrence.{Occurrence, OccurrenceVec, empty, push_occurrences}
use bilkent_os_projects.Words.Sort.{qsort}
use bilkent_os_projects.Words.Report.{report}
use bilkent_os_projects.Words.Scan.{System, make_input_filename, in_range, scan_file}

-- What a thread leaves: whether its file opened, and the records.
pub record ThreadResult : Type 0 where
  pub ok : Bool
  pub found : OccurrenceVec

unfoldable pub worker : System → Text → ℤ → ℕ → Option ThreadResult
worker sys prefix k i = do
  name ← make_input_filename prefix i
  some (elim (sys.input name) [
    | none ↦ record { ok = false; found = empty }
    | some contents ↦ record { ok = true; found = scan_file k i contents }
  ])

-- The threads `i + 1` to `i + n`. `none` stands for the exit with status 1 when one of them cannot be
-- made or when its file name is too long.
unfoldable pub run_workers : System → Text → ℤ → ℕ → ℕ → Option (List ThreadResult)
run_workers sys prefix k i zero = some []
run_workers sys prefix k i (suc n) =
    let rest = run_workers sys prefix k (suc i) n in
    if not (sys.starts (suc i))
    then none
    else do result ← worker sys prefix k (suc i); results ← rest; some (result ∷ results)

unfoldable pub merge : OccurrenceVec → List ThreadResult → OccurrenceVec
merge v [] = v
merge v (r ∷ rs) = merge (if r.ok then push_occurrences v r.found.items else v) rs

abbrev pub sort_all : List Occurrence → List Occurrence
sort_all os = if ltb 1 (length os) then qsort os else os

-- From the numbers of the arguments on: the exit status and what the output file holds, if it was
-- written.
unfoldable pub find_words : System → Text → ℤ → ℤ → Text → ℕ × Option Text
find_words sys prefix n k out = elim (run_workers sys prefix k 0 (pos_part n)) [
  | none ↦ (1, none)
  | some results ↦
      if sys.writable out
      then (0, some (report (sort_all (merge empty results).items)))
      else (1, none)
]

unfoldable pub find_lwt : System → List Text → ℕ × Option Text
find_lwt sys (program ∷ prefix ∷ n ∷ k ∷ out ∷ []) =
    if not (in_range (atoi n) 1 10)
    then (1, none)
    else if not (in_range (atoi k) 1 100)
    then (1, none)
    else find_words sys prefix (atoi n) (atoi k) out
find_lwt sys argv = (1, none)
