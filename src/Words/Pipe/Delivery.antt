-- ===== src/Words/Pipe/Delivery.antt =====
-- What the parent of findlwp.c has when its loop ends, for every way in which the system cuts the streams
-- of the children into reads and orders them.
use bilkent_os_projects.Base.{
  ℕ, ◌≤◌, ◌≡◌, true, false, Option, none, some, List, [], ◌∷◌, ◌++◌, length, All, ◌==◌,
  if◌then◌else◌,
}
use bilkent_os_projects.Words.Text.{Text, c_string}
use bilkent_os_projects.Words.Occurrence.{Occurrence}
use bilkent_os_projects.Words.Record.{parse_record_line}
use bilkent_os_projects.Words.Pipe.Reader.{
  Pipe, ReadResult, read_bytes, read_interrupted, SelectResult, ready, select_interrupted,
}

-- The record of a line, if it has one.
abbrev pub line_record : Text → List Occurrence
line_record line = elim (parse_record_line (c_string line)) [ none ↦ [] | some o ↦ o ∷ [] ]

-- The records of the complete lines of a text, from the start of a line.
unfoldable pub records_from : Text → Text → List Occurrence
records_from start [] = []
records_from start (c ∷ s) =
    let line = records_from [] s in
    let longer = records_from (start ++ c ∷ []) s in
    if c == b'\n' then line_record start ++ line else longer

-- What remains behind the last newline.
unfoldable pub rest_from : Text → Text → Text
rest_from start [] = start
rest_from start (c ∷ s) =
    let line = rest_from [] s in
    let longer = rest_from (start ++ c ∷ []) s in if c == b'\n' then line else longer

-- A stream is what the parent has not read of a child's bytes, or `none` once the parent has seen its
-- end. What the system answers for one pipe: a read gets at most `chunk` bytes.
pub data Answers (chunk : ℕ) : Option Text → Option ReadResult → Option Text → Type 0 where
  gone : Answers chunk none none none
  silent : (s : Text) → Answers chunk (some s) none (some s)
  part :
      (c : ℕ) (s t : Text)
      → length (c ∷ s) ≤ chunk
      → Answers chunk (some (c ∷ s ++ t)) (some (read_bytes (c ∷ s))) (some t)
  over : Answers chunk (some []) (some (read_bytes [])) none
  again : (s : Text) → Answers chunk (some s) (some read_interrupted) (some s)

-- One call of `select`, for all pipes.
pub data ReadRound (chunk : ℕ)
    : List (Option Text) → List (Option ReadResult) → List (Option Text) → Type 0 where
  nothing : ReadRound chunk [] [] []
  one :
      {s t : Option Text} {r : Option ReadResult} {ss ts : List (Option Text)}
      {rs : List (Option ReadResult)}
      → Answers chunk s r t
      → ReadRound chunk ss rs ts
      → ReadRound chunk (s ∷ ss) (r ∷ rs) (t ∷ ts)

-- All closed streams.
abbrev pub AllGone : List (Option Text) → Type 0
AllGone [] = Unit
AllGone (none ∷ ss) = AllGone ss
AllGone (some s ∷ ss) = ⊥

-- Answers that deliver all of the streams, in any order and in any pieces.
pub data Delivers (chunk : ℕ) : List (Option Text) → List SelectResult → Type 0 where
  complete : {ss : List (Option Text)} → AllGone ss → Delivers chunk ss []
  round :
      {ss ts : List (Option Text)} {rs : List (Option ReadResult)} {answers : List SelectResult}
      → ReadRound chunk ss rs ts
      → Delivers chunk ts answers
      → Delivers chunk ss (ready rs ∷ answers)
  retry :
      {ss : List (Option Text)} {answers : List SelectResult}
      → Delivers chunk ss answers
      → Delivers chunk ss (select_interrupted ∷ answers)

-- A pipe of the parent and the stream behind it.
abbrev pub NoNewline : Text → Type 0
NoNewline s = All (λ c. (c == b'\n') ≡ false) s

abbrev pub Fits : Pipe → Option Text → Type 0
Fits p none = p.closed ≡ true
Fits p (some s) = (p.closed ≡ false) × NoNewline p.buffer

abbrev pub AllFit : List Pipe → List (Option Text) → Type 0
AllFit [] [] = Unit
AllFit (p ∷ ps) (s ∷ ss) = Fits p s × AllFit ps ss
AllFit [] (s ∷ ss) = ⊥
AllFit (p ∷ ps) [] = ⊥

-- The records that the parent will still get from a pipe.
abbrev pub pending : Pipe → Option Text → List Occurrence
pending p none = []
pending p (some s) = records_from p.buffer s

abbrev pub all_pending : List Pipe → List (Option Text) → List Occurrence
all_pending (p ∷ ps) (s ∷ ss) = pending p s ++ all_pending ps ss
all_pending [] ss = []
all_pending (p ∷ ps) [] = []
