-- ===== src/Tus/Inv.antt =====
-- The invariant of the threads library of Project2/tus.c. Children: `Tally` (counting over the
-- table), `Count` (over the queue), `Find` (looking threads up), `Switch` (handing over to the next
-- thread), `Yield` (tus_yield behind its guards), `Call` and `Answer` (the whole call), `Arrive`
-- (going on after a switch), `Exit`, `Cancel`, `Join`, `Create` and `Init` (the other calls).
pub mod Tally
pub mod Find
pub mod Count
pub mod Switch
pub mod Yield
pub mod Call
pub mod Answer
pub mod Arrive
pub mod Exit
pub mod Cancel
pub mod Join
pub mod Create
pub mod Init
use bilkent_os_projects.Base.{
  ℕ, ◌+◌, ◌≤◌, ◌<◌, ◌≡◌, Bool, true, false, ◌&&◌, Option, none, some, List, [], ◌∷◌, length, ◌==◌,
  if◌then◌else◌,
}
use bilkent_os_projects.Tus.Queue.{Ring}
use bilkent_os_projects.Tus.Queue.Contents.{contents, IsValid}
use bilkent_os_projects.Tus.State.{ThreadState, ready, running, ended, Tcb, Table, Tus, has_tid}
use bilkent_os_projects.Tus.Yield.{is_ready}

abbrev pub one : Bool → ℕ
one true = 1
one false = 0

abbrev pub is_running : ThreadState → Bool
is_running running = true
is_running ready = false
is_running ended = false

-- What an entry of the table counts for.
abbrev pub with_tid : ℕ → Option Tcb → ℕ
with_tid t o = one (has_tid t o)

abbrev pub ready_tid : ℕ → Option Tcb → ℕ
ready_tid t none = 0
ready_tid t (some c) = one (c.tid == t && is_ready c.state)

abbrev pub running_tid : ℕ → Option Tcb → ℕ
running_tid t none = 0
running_tid t (some c) = one (c.tid == t && is_running c.state)

abbrev pub any_ready : Option Tcb → ℕ
any_ready none = 0
any_ready (some c) = one (is_ready c.state)

abbrev pub any_running : Option Tcb → ℕ
any_running none = 0
any_running (some c) = one (is_running c.state)

abbrev pub flagged : Option Tcb → ℕ
flagged none = 0
flagged (some c) = one (is_running c.state && c.resume_flag)

abbrev pub tally : (Option Tcb → ℕ) → Table → ℕ
tally g [] = 0
tally g (o ∷ ts) = g o + tally g ts

abbrev pub count : ℕ → List ℕ → ℕ
count t [] = 0
count t (x ∷ xs) = one (x == t) + count t xs

-- What holds whether or not a thread runs: the ring is in order, there are 64 slots, and no two
-- threads have the same tid.
pub record Sound (s : Tus) : Type 0 where
  pub ring : IsValid s.queue
  pub slots : length s.threads ≡ 64
  pub unique : (t : ℕ) → tally (with_tid t) s.threads ≤ 1
  pub positive : tally (with_tid 0) s.threads ≡ 0

-- While thread `t` runs: it is the only one that does, and the queue holds exactly the ready
-- threads, each once.
pub record Inv (s : Tus) : Type 0 where
  pub sound : Sound s
  pub queued : (t : ℕ) → count t (contents s.queue) ≡ tally (ready_tid t) s.threads
  pub total : s.queue.size ≡ tally any_ready s.threads
  pub current : (t : ℕ) × (s.current_tid ≡ some t) × (tally (running_tid t) s.threads ≡ 1)
  pub single : tally any_running s.threads ≡ 1

-- The running thread is not on its way out of an earlier yield.
abbrev pub Clean : Tus → Type 0
Clean s = tally flagged s.threads ≡ 0

-- Between two threads: `next` is ready but has left the queue, and no thread runs.
pub record Between (next : ℕ) (s : Tus) : Type 0 where
  pub sound : Sound s
  pub queued :
      (t : ℕ) → count t (contents s.queue) + one (next == t) ≡ tally (ready_tid t) s.threads
  pub total : s.queue.size + 1 ≡ tally any_ready s.threads
  pub idle : tally any_running s.threads ≡ 0
