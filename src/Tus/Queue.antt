-- ===== src/Tus/Queue.antt =====
-- The ready queue of Project2/tus.c (lines 31-101 and 176-207): `ready_q` with `rq_head`, `rq_tail`
-- and `rq_size`. Children: `Contents` (what the ring holds), `Refine` (the operations against a
-- list), `Remove` (the operations that empty the ring and fill it again).
pub mod Contents
pub mod Refine
pub mod Remove
use bilkent_os_projects.Base.{
  ℕ, zero, suc, ◌+◌, ◌-◌, ◌%◌, Bool, true, false, not, ◌&&◌, Option, none, some, List, [], ◌∷◌,
  ◌++◌, set, get_elem?, leb, ◌==◌, if◌then◌else◌,
}

-- TUS_MAXTHREADS
abbrev pub max_threads : ℕ
max_threads = 64

-- Thread ids are positive, so an entry is a natural number.
pub record Ring : Type 0 where
  pub ready_q : List ℕ
  pub head : ℕ
  pub tail : ℕ
  pub size : ℕ

unfoldable pub rq_init : Ring → Ring
rq_init q = record q { head = 0; tail = 0; size = 0 }

abbrev pub rq_empty : Ring → Bool
rq_empty q = q.size == 0

-- `true` is TUS_SUCCESS, `false` is TUS_ERROR.
unfoldable pub rq_push : Ring → ℕ → Bool × Ring
rq_push q tid = if leb max_threads q.size then (false, q) else (
  true,
  record q {
    ready_q = set q.ready_q q.tail tid;
    tail = (q.tail + 1) % max_threads;
    size = q.size + 1;
  },
)

abbrev pub entry : Option ℕ → ℕ
entry none = 0
entry (some tid) = tid

-- `none` is TUS_ERROR. A read outside the array does not happen (`Contents.IsValid`).
unfoldable pub rq_pop : Ring → Option ℕ × Ring
rq_pop q = if rq_empty q then (none, q) else (
  some (entry (get_elem? q.ready_q q.head)),
  record q { head = (q.head + 1) % max_threads; size = q.size - 1 },
)

unfoldable pub rq_push_front : Ring → ℕ → Bool × Ring
rq_push_front q tid =
    if leb max_threads q.size
    then (false, q)
    else let h = (q.head + max_threads - 1) % max_threads in
      (true, record q { head = h; ready_q = set q.ready_q h tid; size = q.size + 1 })

-- The loops `for (i = 0; i < n; i++) temp[...] = rq_pop();`, by the rounds left. The rounds are
-- `rq_size`, so the queue does not run empty; an empty one would stop the loop here.
unfoldable pub pop_all : ℕ → Ring → List ℕ × Ring
pop_all zero q = ([], q)
pop_all (suc n) q =
    let (x, q') = rq_pop q in
    let rest = pop_all n q' in elim x [ none ↦ ([], q) | some tid ↦ (tid ∷ rest.0, rest.1) ]

-- `for (...) rq_push(temp[i]);`
unfoldable pub push_all : Ring → List ℕ → Ring
push_all q [] = q
push_all q (x ∷ xs) = push_all (rq_push q x).1 xs

-- What `rq_remove_tid` keeps in `temp`, and `found`.
unfoldable pub keep_others : ℕ → Bool → List ℕ → List ℕ × Bool
keep_others tid found [] = ([], found)
keep_others tid found (x ∷ xs) =
    let hit = x == tid && not found in
    let (kept, found') = keep_others tid (if hit then true else found) xs in
    (if hit then kept else x ∷ kept, found')

unfoldable pub rq_remove_tid : ℕ → Ring → Bool × Ring
rq_remove_tid tid q =
    let (all, q') = pop_all q.size q in
    let (temp, found) = keep_others tid false all in (found, push_all q' temp)

-- ALG_FCFS and ALG_RANDOM are 1 and 2.
pub data Alg : Type 0 where
  fcfs random : Alg

-- temp[idx], and the others in order.
abbrev pub pick_at : ℕ → List ℕ → Option ℕ × List ℕ
pick_at idx [] = (none, [])
pick_at zero (x ∷ xs) = (some x, xs)
pick_at (suc idx) (x ∷ xs) = let (picked, rest) = pick_at idx xs in (picked, x ∷ rest)

-- `rand` is what `rand()` returns. A queue that is not empty has size > 0 to divide by.
unfoldable pub pick_next_tid_by_sched : Alg → ℕ → Ring → Option ℕ × Ring
pick_next_tid_by_sched alg rand q = if rq_empty q then (none, q) else elim alg [
  | fcfs ↦ rq_pop q
  | random ↦
      let (all, q') = pop_all q.size q in
      let (picked, rest) = pick_at (rand % q.size) all in (picked, push_all q' rest)
]
