-- ===== src/Tus/Yield.antt =====
-- `tus_yield` and `tus_exit` of Project2/tus.c (lines 329-453). A call that switches ends in
-- `setcontext`: the result `switches t` says that thread t goes on, at the start of its function if
-- it is new, and otherwise behind the `getcontext` of its own `tus_yield`, which is `resumed`.
use bilkent_os_projects.Base.{
  ℕ, suc, zero, Bool, true, false, not, Option, none, some, ◌==◌, if◌then◌else◌, ℤ, pos, negsuc,
  minus_one,
}
use bilkent_os_projects.Tus.Queue.{rq_push, rq_push_front, rq_remove_tid, pick_next_tid_by_sched}
use bilkent_os_projects.Tus.State.{
  ThreadState, ready, running, ended, Tcb, Tus, get_tcb_by_tid, current_tcb, modify, with_state,
  with_flag,
}

-- A return to the caller, a switch to a thread, or the end of the process.
pub data Control : Type 0 where
  returns : ℤ → Control
  switches : ℕ → Control
  exits : Control

abbrev pub fail : Tus → Control × Tus
fail s = (returns minus_one, s)

abbrev pub update : Tus → ℕ → (Tcb → Tcb) → Tus
update s slot f = record s { threads = modify s.threads slot f }

-- `caller->resume_flag = 0; return TUS_ERROR;`, in the second case with `state = T_RUNNING`.
abbrev pub drop_flag : Tus → ℕ → Control × Tus
drop_flag s slot = fail (update s slot (with_flag false))

abbrev pub restore : Tus → ℕ → Control × Tus
restore s slot = fail (update s slot (λ c. record c { resume_flag = false; state = running }))

-- Lines 402-418. The caller and the next thread may be the same.
unfoldable pub switch_to : Tus → ℕ → ℕ → Bool → ℕ → Control × Tus
switch_to s slot caller any next = elim (get_tcb_by_tid s.threads next) [
  | none ↦ restore (if any then record s { queue = (rq_remove_tid caller s.queue).1 } else s) slot
  | some f ↦ (
    switches next,
    record s {
      threads =
          modify (modify s.threads slot (λ c. record c { yield_result = pos next; state = ready }))
            f.slot (with_state running);
      current_tid = some next;
    },
  )
]

-- Lines 356-369.
unfoldable pub yield_any : ℕ → Tus → ℕ → ℕ → Control × Tus
yield_any rand s slot caller =
    let s₁ = update s slot (with_state ready) in
    let (pushed, q) = rq_push s.queue caller in
    let (picked, q') = pick_next_tid_by_sched s.sched_alg rand q in
    if not pushed then restore s₁ slot else elim picked [
      | none ↦ restore (record s₁ { queue = (rq_remove_tid caller q').1 }) slot
      | some next ↦ switch_to (record s₁ { queue = q' }) slot caller true next
    ]

abbrev pub is_ready : ThreadState → Bool
is_ready ready = true
is_ready running = false
is_ready ended = false

-- Lines 371-396.
unfoldable pub yield_to : Tus → ℕ → ℕ → ℕ → Control × Tus
yield_to s slot caller t =
    if t == caller
    then (
      returns (pos caller),
      update s slot
          (λ c. record c { yield_result = pos caller; state = running; resume_flag = false }),
    )
    else elim (get_tcb_by_tid s.threads t) [
      | none ↦ drop_flag s slot
      | some f ↦
          let (found, q) = rq_remove_tid t s.queue in
          let (pushed, q') = rq_push q caller in
          if not (is_ready f.tcb.state)
          then drop_flag s slot
          else if not found
          then drop_flag (record s { queue = q }) slot
          else if not pushed
          then restore (record s { queue = (rq_push_front q' t).1 }) slot
          else switch_to (update (record s { queue = q' }) slot (with_state ready)) slot caller
              false t
    ]

-- The thread behind its `getcontext` for the second time (lines 347-352).
abbrev pub resumed : Tus → ℕ → Tcb → Control × Tus
resumed s slot c = (
  returns c.yield_result,
  record (update s slot (λ c. record c { resume_flag = false; state = running })) {
    current_tid = some c.tid;
  },
)

-- Line 355 and what follows.
unfoldable pub yield_from : ℕ → ℤ → Tus → ℕ → ℕ → Control × Tus
yield_from rand (pos zero) s slot caller = yield_any rand s slot caller
yield_from rand (pos (suc t)) s slot caller = yield_to s slot caller (suc t)
yield_from rand (negsuc t) s slot caller = drop_flag s slot

-- `saves` says whether `getcontext` succeeds, `rand` is the next random number.
unfoldable pub tus_yield : Bool → ℕ → Tus → ℤ → Control × Tus
tus_yield saves rand s tid = if not s.initialized then fail s else elim (current_tcb s) [
  | none ↦ fail s
  | some f ↦
      if not saves
      then fail s
      else if f.tcb.resume_flag
      then resumed s f.slot f.tcb
      else yield_from rand tid (update s f.slot (with_flag true)) f.slot f.tcb.tid
]

-- What a thread that was switched to does, if it waits in its `tus_yield`.
unfoldable pub resume : Tus → ℕ → Option (Control × Tus)
resume s t = elim (get_tcb_by_tid s.threads t) [
  | none ↦ none
  | some f ↦ if f.tcb.resume_flag then some (resumed s f.slot f.tcb) else none
]

-- The state in which a thread goes on that was switched to: behind its `tus_yield` if it waits
-- there, and else at the start of its function.
abbrev pub arrive : Tus → ℕ → Tus
arrive s t = elim (resume s t) [ none ↦ s | some r ↦ r.1 ]

unfoldable pub tus_exit : ℕ → Tus → Control × Tus
tus_exit rand s = if not s.initialized then (exits, s) else elim (current_tcb s) [
  | none ↦ (exits, s)
  | some f ↦
      let ts = modify s.threads f.slot (λ c. record c { state = ended; resume_flag = false }) in
      let (picked, q) = pick_next_tid_by_sched s.sched_alg rand s.queue in
      elim picked [
        | none ↦ (exits, record s { threads = ts; queue = q })
        | some next ↦ elim (get_tcb_by_tid ts next) [
          | none ↦ (exits, record s { threads = ts; queue = q })
          | some g ↦ (
            switches next,
            record s {
              threads = modify ts g.slot (with_state running);
              queue = q;
              current_tid = some next;
            },
          )
        ]
      ]
]
