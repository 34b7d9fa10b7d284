-- ===== src/Words/Pipe/Reader.antt =====
-- The loop of the parent in findlwp.c (lines 264-346): `select`, and a `read` of each pipe that is ready.
-- The answers of the system are given, in order.
use bilkent_os_projects.Base.{
  ℕ, zero, suc, ◌+◌, ◌*◌, Bool, true, Option, none, some, List, [], ◌∷◌, ◌++◌, length,
  if◌then◌else◌, ltb, ◌==◌,
}
use bilkent_os_projects.Words.Text.{Text, c_string}
use bilkent_os_projects.Words.Occurrence.{Occurrence, OccurrenceVec, occ_push}
use bilkent_os_projects.Words.Record.{parse_record_line}

-- `buffers[i]`, `buf_cap[i]` and `closed[i]`. `buf_len[i]` is the length of the buffer.
pub record Pipe : Type 0 where
  pub buffer : Text
  pub cap : ℕ
  pub closed : Bool

-- An answer of `read`: the bytes, of which there are none at the end, or -1 with `EINTR` or with
-- another error.
pub data ReadResult : Type 0 where
  read_bytes : Text → ReadResult
  read_interrupted : ReadResult
  read_failed : ReadResult

-- An answer of `select` and, for each pipe that is in the set, of the `read` that follows.
pub data SelectResult : Type 0 where
  ready : List (Option ReadResult) → SelectResult
  select_interrupted : SelectResult
  select_failed : SelectResult

-- The loop that doubles a capacity. The fuel is the capacity that is needed: one that is at least 1
-- grows by at least 1 in each turn.
unfoldable pub double_until : ℕ → ℕ → ℕ → ℕ
double_until zero need cap = cap
double_until (suc fuel) need cap =
    let more = double_until fuel need (cap * 2) in if ltb cap need then more else cap

unfoldable pub grow : ℕ → ℕ → ℕ
grow cap need =
    if ltb cap need then double_until need need (if cap == 0 then 1024 else cap * 2) else cap

-- The same as `occ_push` of findlwt.c.
abbrev pub pipe_push : OccurrenceVec → Occurrence → OccurrenceVec
pipe_push v o = occ_push v o

-- What the parent does with a line, of which it sees the bytes before the first null byte.
unfoldable pub push_line : OccurrenceVec → Text → OccurrenceVec
push_line v line = elim (parse_record_line (c_string line)) [ none ↦ v | some o ↦ pipe_push v o ]

-- The loop over the newlines of a buffer, from the bytes of a line that were passed, and what remains.
unfoldable pub take_lines : OccurrenceVec → Text → Text → OccurrenceVec × Text
take_lines v start [] = (v, start)
take_lines v start (c ∷ s) =
    let line = take_lines (push_line v start) [] s in
    let longer = take_lines v (start ++ c ∷ []) s in if c == b'\n' then line else longer

abbrev pub close : Pipe → Pipe
close p = record { buffer = p.buffer; cap = p.cap; closed = true }

-- The body of the loop for one pipe, behind its guards.
unfoldable pub receive : OccurrenceVec → Pipe → ReadResult → OccurrenceVec × Pipe
receive v p (read_bytes []) = (v, close p)
receive v p (read_bytes (c ∷ tmp)) =
    let (all, remaining) = take_lines v [] (p.buffer ++ c ∷ tmp) in
    (
      all,
      record {
        buffer = remaining;
        cap = grow p.cap (length p.buffer + length (c ∷ tmp) + 1);
        closed = p.closed;
      },
    )
receive v p read_interrupted = (v, p)
receive v p read_failed = (v, close p)

unfoldable pub serve_pipe : OccurrenceVec → Pipe → Option ReadResult → OccurrenceVec × Pipe
serve_pipe v p none = (v, p)
serve_pipe v p (some r) = if p.closed then (v, p) else receive v p r

unfoldable pub serve :
    OccurrenceVec → List Pipe → List (Option ReadResult) → OccurrenceVec × List Pipe
serve v [] rs = (v, [])
serve v (p ∷ ps) [] = (v, p ∷ ps)
serve v (p ∷ ps) (r ∷ rs) =
    let (one, q) = serve_pipe v p r in let (all, qs) = serve one ps rs in (all, q ∷ qs)

unfoldable pub open_pipes : List Pipe → ℕ
open_pipes [] = 0
open_pipes (p ∷ ps) = if p.closed then open_pipes ps else suc (open_pipes ps)

-- The loop. `none` stands for a call of `select` that has no answer.
unfoldable pub collect : OccurrenceVec → List Pipe → List SelectResult → Option OccurrenceVec
collect v ps [] = if open_pipes ps == 0 then some v else none
collect v ps (ready rs ∷ answers) =
    let (all, qs) = serve v ps rs in
    let rest = collect all qs answers in if open_pipes ps == 0 then some v else rest
collect v ps (select_interrupted ∷ answers) =
    let rest = collect v ps answers in if open_pipes ps == 0 then some v else rest
collect v ps (select_failed ∷ answers) = some v
