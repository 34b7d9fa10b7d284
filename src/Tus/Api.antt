-- ===== src/Tus/Api.antt =====
-- `tus_init`, `tus_create_thread`, `tus_join`, `tus_cancel` and `tus_gettid` of Project2/tus.c
-- (lines 104-106, 215-327 and 455-512).
use bilkent_os_projects.Base.{
  ℕ, zero, suc, Bool, true, false, not, ◌||◌, Option, none, some, ◌==◌, leb, if◌then◌else◌,
  replicate, set, ℤ, pos, negsuc, minus_one,
}
use bilkent_os_projects.Tus.Queue.{
  Ring, Alg, fcfs, random, max_threads, rq_init, rq_push, rq_remove_tid,
}
use bilkent_os_projects.Tus.State.{
  ThreadState, ready, running, ended, Tcb, Table, Tus, get_tcb, current_tcb, find_free_slot,
  count_existing_threads, allocate_tid, modify, destroy_thread,
}

-- `valid_sched_alg`
abbrev pub alg_of : ℤ → Option Alg
alg_of (negsuc n) = none
alg_of (pos n) = if n == 1 then some fcfs else if n == 2 then some random else none

abbrev pub no_threads : Table
no_threads = replicate 64 none

-- Lines 223-228: what is reset before anything can fail.
abbrev pub reset : Tus → Alg → Tus
reset s alg = record s { threads = no_threads; queue = rq_init s.queue; sched_alg = alg }

abbrev pub main_tcb : Tcb
main_tcb = record { tid = 1; state = running; resume_flag = false; yield_result = minus_one }

-- `threads[slot] = tcb`
abbrev pub place : Tus → ℕ → Tcb → Tus
place s slot c = record s { threads = set s.threads slot (some c) }

-- `gets` says whether `malloc` succeeds, `saves` whether `getcontext` does.
unfoldable pub tus_init : Bool → Bool → Tus → ℤ → ℤ × Tus
tus_init gets saves s salg = if s.initialized then (minus_one, s) else elim (alg_of salg) [
  | none ↦ (minus_one, s)
  | some alg ↦
      if not gets || not saves
      then (minus_one, reset s alg)
      else elim (find_free_slot 0 no_threads) [
        | none ↦ (minus_one, reset s alg)
        | some slot ↦ (
          pos 1,
          record (place (reset s alg) slot main_tcb) { current_tid = some 1; initialized = true },
        )
      ]
]

abbrev pub new_tcb : ℕ → Tcb
new_tcb tid = record { tid = tid; state = ready; resume_flag = false; yield_result = minus_one }

-- `has_start` says that `tsf` is not null; `gets` that both calls of `malloc` succeed.
unfoldable pub tus_create_thread : Bool → Bool → Bool → Tus → ℤ × Tus
tus_create_thread has_start gets saves s =
    if not s.initialized || not has_start || leb max_threads (count_existing_threads s.threads)
    then (minus_one, s)
    else elim (find_free_slot 0 s.threads) [
      | none ↦ (minus_one, s)
      | some slot ↦ elim (allocate_tid s.threads) [
        | none ↦ (minus_one, s)
        | some tid ↦
            let (pushed, q) = rq_push s.queue tid in
            if not gets || not saves || not pushed
            then (minus_one, s)
            else (pos tid, record (place s slot (new_tcb tid)) { queue = q })
      ]
    ]

abbrev pub is_ended : ThreadState → Bool
is_ended ready = false
is_ended running = false
is_ended ended = true

abbrev pub is_waiting : ThreadState → Bool
is_waiting ready = true
is_waiting running = false
is_waiting ended = false

abbrev pub cancelled : Tus → ℕ → Ring → Tus
cancelled s slot q = record s {
  threads = modify s.threads slot (λ c. record c { state = ended; resume_flag = false });
  queue = q;
}

abbrev pub is_current : Tus → ℤ → Bool
is_current s (negsuc t) = false
is_current s (pos t) = elim s.current_tid [ none ↦ false | some c ↦ t == c ]

abbrev pub tid_of : ℤ → ℕ
tid_of (pos t) = t
tid_of (negsuc t) = 0

unfoldable pub tus_cancel : Tus → ℤ → ℤ × Tus
tus_cancel s tid =
    if not s.initialized || is_current s tid then (minus_one, s) else elim (get_tcb s.threads tid) [
      | none ↦ (minus_one, s)
      | some f ↦
          let (found, q) = rq_remove_tid (tid_of tid) s.queue in
          if is_ended f.tcb.state
          then (minus_one, s)
          else if not (is_waiting f.tcb.state)
          then (pos 0, cancelled s f.slot s.queue)
          else if not found
          then (minus_one, record s { queue = q })
          else (pos 0, cancelled s f.slot q)
    ]

-- One turn of the loop of `tus_join` (lines 473-481): it is over, or it yields and looks again.
pub data Join : Type 0 where
  joined : ℤ → Join
  yields : Join

unfoldable pub join_check : Tus → ℤ → Join × Tus
join_check s tid = elim (get_tcb s.threads tid) [
  | none ↦ (joined minus_one, s)
  | some f ↦
      if is_ended f.tcb.state
      then (joined tid, record s { threads = destroy_thread s.threads (tid_of tid) })
      else (yields, s)
]

-- What follows the `tus_yield(TUS_ANY)` of the loop, given what it returned.
unfoldable pub join_again : Tus → ℤ → ℤ → Join × Tus
join_again s tid (negsuc zero) = (joined minus_one, s)
join_again s tid (negsuc (suc n)) = join_check s tid
join_again s tid (pos n) = join_check s tid

-- The start of `tus_join`.
unfoldable pub tus_join : Tus → ℤ → Join × Tus
tus_join s tid = if not s.initialized then (joined minus_one, s) else elim (current_tcb s) [
  | none ↦ (joined minus_one, s)
  | some f ↦ if f.tcb.tid == tid_of tid then (joined minus_one, s) else join_check s tid
]

unfoldable pub tus_gettid : Tus → ℤ
tus_gettid s = elim s.current_tid [ none ↦ minus_one | some t ↦ pos t ]
