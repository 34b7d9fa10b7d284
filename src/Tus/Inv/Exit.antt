-- ===== src/Tus/Inv/Exit.antt =====
-- `tus_exit` of Project2/tus.c and the invariant.
use bilkent_os_projects.Base.{
  ℕ, ◌<◌, ◌≡◌, refl, true, false, Option, some, arith, inl, inr, Bool-cases,
}
use bilkent_os_projects.Tus.Queue.{Ring, pick_at, pick_next_tid_by_sched}
use bilkent_os_projects.Tus.Queue.Contents.{contents}
use bilkent_os_projects.Tus.Queue.Remove.{chosen}
use bilkent_os_projects.Tus.State.{ended, Tcb, Tus, Found, modify}
use bilkent_os_projects.Tus.Yield.{exits, tus_exit}
use bilkent_os_projects.Tus.Inv.{ready_tid, Inv, Between, any_running, any_ready}
use bilkent_os_projects.Tus.Inv.Tally.{tally-modify}
use bilkent_os_projects.Tus.Inv.Count.{Picks, pick-Picks}
use bilkent_os_projects.Tus.Inv.Switch.{HandsOver, modify-Sound, find_next, activate_found}
use bilkent_os_projects.Tus.Inv.Yield.{Runs, running_found}
use bilkent_os_projects.Tus.Inv.Call.{running-current}

-- How a thread that ends is written.
abbrev pub as_ended : Tcb → Tcb
as_ended c = record c { state = ended; resume_flag = false }

-- The running thread ends, and `next` has left the queue.
retire :
    (s : Tus) (t next : ℕ) (f : Found) (r : Option ℕ × Ring)
    → Inv s
    → Runs s t f
    → Picks next s.queue r
    → Between next (record s { threads = modify s.threads f.slot as_ended; queue = r.1 })
retire s t next f r v runs p =
    let g = runs.stands.at_slot in
    let is = runs.is in
    let less = p.less in
    record {
      sound = modify-Sound s f.slot f.tcb as_ended r.1 s.current_tid v.sound g refl p.valid;
      queued = λ u. ground (
        arith,
        v.queued u,
        p.others u,
        tally-modify (ready_tid u) s.threads f.slot f.tcb as_ended g,
      );
      total = ground (arith, v.total, tally-modify any_ready s.threads f.slot f.tcb as_ended g);
      idle = ground (arith, v.single, tally-modify any_running s.threads f.slot f.tcb as_ended g);
    }

-- If no thread is ready the process ends.
pub tus_exit_last : (rand : ℕ) (s : Tus) → Inv s → s.queue.size ≡ 0 → (tus_exit rand s).0 ≡ exits
unfolding tus_exit pick_next_tid_by_sched
tus_exit_last rand s v empty =
    let (t, cur, _) = v.current in
    let (f, r) = running_found s t v cur in
    elim (Bool-cases s.initialized) [
      | inl init ↦ rw (init, r.cur, r.found, empty) refl
      | inr not_init ↦ rw not_init refl
    ]

-- Otherwise a thread that the scheduler picks from the queue is handed over to, and the caller has
-- ended.
pub tus_exit_next :
    (rand : ℕ) (s : Tus) (t : ℕ)
    → Inv s
    → s.initialized ≡ true
    → s.current_tid ≡ some t
    → 0 < s.queue.size
    → (next : ℕ) × ((pick_at (chosen s.sched_alg rand s.queue.size) (contents s.queue)).0
        ≡ some next)
      × HandsOver next s (tus_exit rand s)
unfolding tus_exit
tus_exit_next rand s t v init cur left =
    let (f, r) = running_found s t v cur in
    let (next, e, p) = pick-Picks s.sched_alg rand s.queue v.sound.ring left in
    let q = (pick_next_tid_by_sched s.sched_alg rand s.queue).1 in
    let s₁ = record s { threads = modify s.threads f.slot as_ended; queue = q } in
    let between = retire s t next f (pick_next_tid_by_sched s.sched_alg rand s.queue) v r p in
    let (g, found, st, gr) = find_next next s₁ between in
    (
      next,
      e,
      rw (tus_exit, init, running-current r, p.took, found)
          (record {
            switched = refl;
            inv = activate_found next s₁ g between st gr;
            now = refl;
            kept = init;
          }),
    )
