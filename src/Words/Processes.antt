-- ===== src/Words/Processes.antt =====
-- `main` of findlwp.c: one child and one pipe for each input file.
use bilkent_os_projects.Base.{
  ℕ, zero, suc, Bool, true, false, not, ◌&&◌, Option, none, some, ◌>>=◌, List, [], ◌∷◌,
  if◌then◌else◌, replicate, ℤ, pos_part,
}
use bilkent_os_projects.Words.Text.{Text, atoi}
use bilkent_os_projects.Words.Occurrence.{empty}
use bilkent_os_projects.Words.Report.{report}
use bilkent_os_projects.Words.Scan.{System, in_range}
use bilkent_os_projects.Words.Threads.{sort_all}
use bilkent_os_projects.Words.Pipe.{WriteResult, child_process}
use bilkent_os_projects.Words.Pipe.Reader.{Pipe, SelectResult, collect}
pub mod Arrival

abbrev pub new_pipe : Pipe
new_pipe = record { buffer = []; cap = 0; closed = false }

-- Whether the pipes and children `i + 1` to `i + n` can be made.
unfoldable pub all_start : System → ℕ → ℕ → Bool
all_start sys i zero = true
all_start sys i (suc n) = sys.starts (suc i) && all_start sys (suc i) n

-- What the children `i + 1` to `i + n` send, for the answers that each one gets from `write`.
unfoldable pub child_streams :
    System → Text → ℤ → ℕ → ℕ → ℕ → (ℕ → List WriteResult) → Option (List Text)
child_streams sys prefix k data_length i zero writes = some []
child_streams sys prefix k data_length i (suc n) writes = do
  stream ← child_process sys prefix k (suc i) data_length (writes (suc i))
  streams ← child_streams sys prefix k data_length (suc i) n writes
  some (stream ∷ streams)

-- The parent, from the making of the pipes on, with the answers of `select` and `read`. `none` stands
-- for a call that has no answer.
unfoldable pub gather_words : System → ℕ → Text → List SelectResult → Option (ℕ × Option Text)
gather_words sys n out answers = if not (all_start sys 0 n) then some (1, none) else do
  all ← collect empty (replicate n new_pipe) answers
  some (if sys.writable out then (0, some (report (sort_all all.items))) else (1, none))

unfoldable pub find_lwp : System → List Text → List SelectResult → Option (ℕ × Option Text)
find_lwp sys (program ∷ prefix ∷ n ∷ k ∷ data_length ∷ out ∷ []) answers =
    if not (in_range (atoi n) 1 10)
    then some (1, none)
    else if not (in_range (atoi k) 1 100)
    then some (1, none)
    else if not (in_range (atoi data_length) 1 1000)
    then some (1, none)
    else gather_words sys (pos_part (atoi n)) out answers
find_lwp sys argv answers = some (1, none)
