-- ===== src/Words/Pipe/Capacity.antt =====
-- The buffers of the parent of findlwp.c are large enough for what is copied into them.
use bilkent_os_projects.Base.{
  ℕ, zero, suc, ◌+◌, ◌*◌, ◌≤◌, ◌<◌, ◌≡◌, [], ◌∷◌, ◌++◌, length, length-append, arith, ◌==◌,
  Bool-cases, inl, inr,
}
use bilkent_os_projects.Words.Text.{Text}
use bilkent_os_projects.Words.Occurrence.{OccurrenceVec}
use bilkent_os_projects.Words.Pipe.Reader.{
  Pipe, read_bytes, take_lines, double_until, grow, receive, push_line,
}

double_until_lem :
    (fuel need cap : ℕ)
    → 0 < cap
    → need ≤ cap + fuel
    → (need ≤ double_until fuel need cap) × (cap ≤ double_until fuel need cap)
unfolding double_until
double_until_lem zero need cap h enough = (omega arith, omega arith)
double_until_lem (suc fuel) need cap h enough =
    let more = double_until_lem fuel need (cap * 2) (omega arith) (omega arith) in ground arith

grow_lem : (cap need : ℕ) → (need ≤ grow cap need) × (cap ≤ grow cap need)
unfolding grow
grow_lem cap need =
    let new = double_until_lem need need 1024 (omega arith) (omega arith) in
    elim (Bool-cases (cap == 0)) [
      | inl e ↦ rw e (let zero_cap : cap ≡ 0 = ground arith in ground arith)
      | inr e ↦
          let more : 0 < cap = ground arith in
          let doubled = double_until_lem need need (cap * 2) (omega arith) (omega arith) in
          rw e (ground arith)
    ]

length-take_lines :
    (v : OccurrenceVec) (start s : Text) → length (take_lines v start s).1 ≤ length start + length s
unfolding take_lines
length-take_lines v start [] = omega arith
length-take_lines v start (c ∷ s) =
    let line = length-take_lines (push_line v start) [] s in
    let longer = length-take_lines v (start ++ c ∷ []) s in
    let size = length-append start (c ∷ []) in ground arith

-- After a read of at least one byte, the buffer has room for what it held, for the new bytes and for
-- the null byte behind them; it does not shrink; and what remains in it leaves room for a null byte.
pub receive_fits :
    (v : OccurrenceVec) (p : Pipe) (c : ℕ) (s : Text)
    → let q = (receive v p (read_bytes (c ∷ s))).1 in
      (length p.buffer + length (c ∷ s) + 1 ≤ q.cap)
      × (p.cap ≤ q.cap)
      × (length q.buffer + 1 ≤ q.cap)
unfolding receive
receive_fits v p c s =
    let grown = grow_lem p.cap (length p.buffer + length (c ∷ s) + 1) in
    let kept = length-take_lines v [] (p.buffer ++ c ∷ s) in
    let size = length-append p.buffer (c ∷ s) in (grown.0, grown.1, omega arith)
