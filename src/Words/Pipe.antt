-- ===== src/Words/Pipe.antt =====
-- How a child of findlwp.c sends its records through a pipe (`writeToParent` and `child_process`). The
-- answers of the system to the calls of `write` are given, in order. Children: `Writing` (what arrives
-- in the pipe), `Reader` (the parent's loop), `Delivery` (what the parent has when it ends).
use bilkent_os_projects.Base.{
  ℕ, min, Bool, true, false, Option, none, some, ◌>>=◌, List, [], ◌∷◌, ◌++◌, length, take, drop, ℤ,
}
use bilkent_os_projects.Words.Text.{Text}
use bilkent_os_projects.Words.Occurrence.{Occurrence}
use bilkent_os_projects.Words.Scan.{System, make_input_filename, scan_file}
use bilkent_os_projects.Words.Record.{print_record}
pub mod Writing
pub mod Reader
pub mod Delivery
pub mod Lines
pub mod Complete
pub mod Collect
pub mod Capacity
pub mod Records

-- An answer of `write`: the number of bytes written, or -1 with `EINTR` or with another error.
pub data WriteResult : Type 0 where
  wrote : ℕ → WriteResult
  write_interrupted : WriteResult
  write_failed : WriteResult

-- The return value (`true` for 0), the bytes that went into the pipe, the answers that are left.
pub record Sent : Type 0 where
  pub finished : Bool
  pub bytes : Text
  pub answers : List WriteResult

-- The loop from some offset on: the text is what is left of the buffer. A call of `write` is for at
-- most `data_length` bytes, and never writes more than it was asked to. `none` stands for a call that
-- has no answer.
unfoldable pub write_to_parent : ℕ → Text → List WriteResult → Option Sent
write_to_parent data_length [] answers =
    some (record { finished = true; bytes = []; answers = answers })
write_to_parent data_length (c ∷ s) [] = none
write_to_parent data_length (c ∷ s) (wrote w ∷ answers) = do
  let chunk = min (length (c ∷ s)) data_length
  let n = min w chunk
  sent ← write_to_parent data_length (drop n (c ∷ s)) answers
  some (record {
    finished = sent.finished;
    bytes = take n (c ∷ s) ++ sent.bytes;
    answers = sent.answers;
  })
write_to_parent data_length (c ∷ s) (write_interrupted ∷ answers) =
    write_to_parent data_length (c ∷ s) answers
write_to_parent data_length (c ∷ s) (write_failed ∷ answers) =
    some (record { finished = false; bytes = []; answers = answers })

-- The loop over the records. It does not look at what `writeToParent` returns.
unfoldable pub send_records : ℕ → List Occurrence → List WriteResult → Option Text
send_records data_length [] answers = some []
send_records data_length (o ∷ os) answers = do
  sent ← write_to_parent data_length (print_record o) answers
  rest ← send_records data_length os sent.answers
  some (sent.bytes ++ rest)

-- All bytes that a child sends. It sends none if the name of its file is too long (status 1) or its
-- file does not open (status 2).
unfoldable pub child_process : System → Text → ℤ → ℕ → ℕ → List WriteResult → Option Text
child_process sys prefix k i data_length answers = elim (make_input_filename prefix i) [
  | none ↦ some []
  | some name ↦ elim (sys.input name) [
    | none ↦ some []
    | some contents ↦ send_records data_length (scan_file k i contents).items answers
  ]
]
