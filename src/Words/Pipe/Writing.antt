-- ===== src/Words/Pipe/Writing.antt =====
-- What `writeToParent` and the children of findlwp.c put into the pipes.
use bilkent_os_projects.Base.{
  ℕ, zero, suc, ◌+◌, ◌<◌, ◌≤◌, min, ◌≡◌, ◌≢◌, refl, ap, ◌∙◌, true, some, List, [], ◌∷◌, ◌++◌,
  length, take, drop, take-append-drop, length-drop, length-append, arith,
}
use bilkent_os_projects.Words.Text.{Text}
use bilkent_os_projects.Words.Occurrence.{Occurrence}
use bilkent_os_projects.Words.Record.{print_record}
use bilkent_os_projects.Words.Pipe.{
  WriteResult, wrote, write_interrupted, write_failed, Sent, write_to_parent, send_records,
}

abbrev pub NoFailure : List WriteResult → Type 0
NoFailure [] = Unit
NoFailure (a ∷ answers) = (a ≢ write_failed) × NoFailure answers

-- The answers that bring the loop forward.
abbrev pub progress : List WriteResult → ℕ
progress [] = 0
progress (wrote zero ∷ answers) = progress answers
progress (wrote (suc w) ∷ answers) = suc (progress answers)
progress (write_interrupted ∷ answers) = progress answers
progress (write_failed ∷ answers) = progress answers

-- All of a text was sent, with enough answers left for the bytes that are still to come.
pub record IsSent (buffer : Text) (answers : List WriteResult) (sent : Sent) : Type 0 where
  pub finished : sent.finished ≡ true
  pub bytes : sent.bytes ≡ buffer
  pub safe : NoFailure sent.answers
  pub left : progress answers ≤ progress sent.answers + length buffer

progress-wrote :
    (w : ℕ) (answers : List WriteResult) → progress (wrote w ∷ answers) ≡ progress answers + min w 1
progress-wrote zero answers = omega arith
progress-wrote (suc w) answers = omega arith

-- Without an error `writeToParent` sends the whole buffer and returns 0, however the system splits or
-- interrupts the writes, once as many of them wrote something as the buffer has bytes.
pub write_to_parent_lem :
    (data_length : ℕ) (buffer : Text) (answers : List WriteResult)
    → 0 < data_length
    → NoFailure answers
    → length buffer ≤ progress answers
    → (sent : Sent) × (write_to_parent data_length buffer answers ≡ some sent)
      × IsSent buffer answers sent
unfolding write_to_parent
write_to_parent_lem d [] answers h safe enough = (
  record { finished = true; bytes = []; answers = answers },
  refl,
  record { finished = refl; bytes = refl; safe = safe; left = omega arith },
)
write_to_parent_lem d (c ∷ s) [] h safe enough = absurd (omega arith)
write_to_parent_lem d (c ∷ s) (wrote w ∷ answers) h safe enough =
    let n = min w (min (length (c ∷ s)) d) in
    let size = length-drop n (c ∷ s) in
    let forward = progress-wrote w answers in
    let shorter : length (drop n (c ∷ s)) ≤ progress answers = ground arith in
    let (sent, e, r) = write_to_parent_lem d (drop n (c ∷ s)) answers h safe.1 shorter in
    let left = r.left in
    (
      record {
        finished = sent.finished;
        bytes = take n (c ∷ s) ++ sent.bytes;
        answers = sent.answers;
      },
      rw e refl,
      record {
        finished = r.finished;
        bytes = ap (λ t. take n (c ∷ s) ++ t) r.bytes ∙ take-append-drop n (c ∷ s);
        safe = r.safe;
        left = ground arith;
      },
    )
write_to_parent_lem d (c ∷ s) (write_interrupted ∷ answers) h safe enough =
    let (sent, e, r) = write_to_parent_lem d (c ∷ s) answers h safe.1 enough in
    (sent, e, record { finished = r.finished; bytes = r.bytes; safe = r.safe; left = r.left })
write_to_parent_lem d (c ∷ s) (write_failed ∷ answers) h safe enough = absurd (safe.0 refl)

-- The lines of some records.
unfoldable pub print_records : List Occurrence → Text
print_records [] = []
print_records (o ∷ os) = print_record o ++ print_records os

pub send_records_lem :
    (data_length : ℕ) (os : List Occurrence) (answers : List WriteResult)
    → 0 < data_length
    → NoFailure answers
    → length (print_records os) ≤ progress answers
    → send_records data_length os answers ≡ some (print_records os)
unfolding send_records print_records
send_records_lem d [] answers h safe enough = refl
send_records_lem d (o ∷ os) answers h safe enough =
    let size = length-append (print_record o) (print_records os) in
    let (sent, e, r) = write_to_parent_lem d (print_record o) answers h safe (omega arith) in
    let left = r.left in
    let rest = send_records_lem d os sent.answers h r.safe (omega arith) in
    rw (e, rest) (ap (λ t. some (t ++ print_records os)) r.bytes)
