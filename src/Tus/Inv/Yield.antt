-- ===== src/Tus/Inv/Yield.antt =====
-- `tus_yield` of Project2/tus.c and the invariant: the running thread goes to the end of the queue,
-- another leaves it.
use bilkent_os_projects.Base.{
  subst, ℕ, ◌+◌, ◌≤◌, ◌<◌, ◌≡◌, refl, sym, inl, inr, Option-cases, ap₂, ◌∙◌, true, false, Option,
  none, some, [], ◌∷◌, ◌++◌, ◌==◌, arith,
}
use bilkent_os_projects.Tus.Queue.{Ring, rq_push, rq_remove_tid, pick_at, pick_next_tid_by_sched}
use bilkent_os_projects.Tus.Queue.Contents.{contents, IsValid}
use bilkent_os_projects.Tus.Queue.Remove.{chosen}
use bilkent_os_projects.Tus.State.{
  ready, running, Tcb, Tus, Found, get_tcb_by_tid, modify, with_state,
}
use bilkent_os_projects.Tus.Yield.{yield_any, yield_to, drop_flag, is_ready}
use bilkent_os_projects.Tus.Inv.{
  one, tally, count, with_tid, ready_tid, running_tid, any_ready, any_running, Inv, Between,
}
use bilkent_os_projects.Tus.Inv.Tally.{
  tally-modify, tally_mono, tally-disjoint, get_elem?-modify, le-tally,
}
use bilkent_os_projects.Tus.Inv.Find.{
  find_ready, Stands, get_tcb_by_tid-some, get_tcb_by_tid-Stands, running_of, running_le,
}
use bilkent_os_projects.Tus.Inv.Count.{push-Joins, pick-Picks, remove-Leaves}
use bilkent_os_projects.Tus.Inv.Switch.{HandsOver, modify-Sound, switch_to_lem}

-- The running thread, where it stands.
pub record Runs (s : Tus) (t : ℕ) (f : Found) : Type 0 where
  pub cur : s.current_tid ≡ some t
  pub found : get_tcb_by_tid s.threads t ≡ some f
  pub stands : Stands s.threads t f
  pub is : f.tcb.state ≡ running

pub running_found : (s : Tus) (t : ℕ) → Inv s → s.current_tid ≡ some t → (f : Found) × Runs s t f
running_found s t v cur =
    let (u, now, alone) = v.current in
    let same : u ≡ t = cc (now, cur) in
    let alone' = subst (λ w. tally (running_tid w) s.threads ≡ 1) same alone in
    let sound = v.sound in
    let (f, found) =
      get_tcb_by_tid-some s.threads t sound.positive
        (omega (arith, alone', tally_mono (running_tid t) (with_tid t) s.threads (running_le t))) in
    let st = get_tcb_by_tid-Stands s.threads t f found in
    (
      f,
      record {
        cur = cur;
        found = found;
        stands = st;
        is = running_of s.threads t f st (sound.unique t) alone';
      },
    )

-- The running thread is in the queue no more often than any other that is ready: there is room.
ready_or_running : (o : Option Tcb) → any_ready o + any_running o ≤ 1
ready_or_running none = omega arith
ready_or_running (some c) = ground arith

pub queue_has_room : (s : Tus) → Inv s → s.queue.size < 64
queue_has_room s v =
    let slots = v.sound.slots in
    omega (
      arith,
      v.total,
      v.single,
      slots,
      tally-disjoint any_ready any_running s.threads ready_or_running,
    )

-- The running thread is ready again, and the queue has it in place of `next`.
pub preempt :
    (s : Tus) (t next : ℕ) (f : Found) (q : Ring)
    → Inv s
    → Stands s.threads t f
    → f.tcb.state ≡ running
    → IsValid q
    → q.size ≡ s.queue.size
    → ((u : ℕ) → count u (contents q) + one (next == u) ≡ count u (contents s.queue) + one (t == u))
    → Between next (record s { threads = modify s.threads f.slot (with_state ready); queue = q })
preempt s t next f q v st is ok size moved =
    let g = st.at_slot in
    let named = st.named in
    record {
      sound = modify-Sound s f.slot f.tcb (with_state ready) q s.current_tid v.sound g refl ok;
      queued = λ u. ground (
        arith,
        v.queued u,
        moved u,
        tally-modify (ready_tid u) s.threads f.slot f.tcb (with_state ready) g,
      );
      total =
          ground
            (arith, v.total, tally-modify any_ready s.threads f.slot f.tcb (with_state ready) g);
      idle =
          ground
            (arith, v.single, tally-modify any_running s.threads f.slot f.tcb (with_state ready) g);
    }

-- `tus_yield(TUS_ANY)` behind its guards.
pub yield_any_lem :
    (rand : ℕ) (s : Tus) (t : ℕ) (f : Found)
    → Inv s
    → Stands s.threads t f
    → f.tcb.state ≡ running
    → (next : ℕ) × ((pick_at
          (chosen s.sched_alg rand (s.queue.size + 1))
          (contents s.queue ++ t ∷ [])).0
        ≡ some next)
      × HandsOver next s (yield_any rand s f.slot t)
unfolding yield_any
yield_any_lem rand s t f v st is =
    let j = push-Joins s.queue t v.sound.ring (queue_has_room s v) in
    let more = j.more in
    let (next, e, p) = pick-Picks s.sched_alg rand (rq_push s.queue t).1 j.valid (omega arith) in
    let less = p.less in
    let q = (pick_next_tid_by_sched s.sched_alg rand (rq_push s.queue t).1).1 in
    let between =
      preempt s t next f q v st is p.valid (omega arith) (λ u. p.others u ∙ j.others u) in
    let over =
      switch_to_lem (record s { threads = modify s.threads f.slot (with_state ready); queue = q })
        f.slot t true next (with_state ready f.tcb) between
        (get_elem?-modify s.threads f.slot f.tcb (with_state ready) st.at_slot) refl in
    (
      next,
      ap₂ (λ n l. (pick_at (chosen s.sched_alg rand n) l).0) (sym more) (sym j.holds) ∙ e,
      rw (yield_any, j.went, p.took)
          (record { switched = over.switched; inv = over.inv; now = over.now; kept = over.kept }),
    )

-- `tus_yield(u)` behind its guards, for another thread that is ready.
pub yield_to_lem :
    (s : Tus) (t u : ℕ) (f : Found)
    → Inv s
    → Stands s.threads t f
    → f.tcb.state ≡ running
    → (u == t) ≡ false
    → 0 < tally (ready_tid u) s.threads
    → HandsOver u s (yield_to s f.slot t u)
unfolding yield_to
yield_to_lem s t u f v st is other there =
    let sound = v.sound in
    let (g, found, gt, gr) = find_ready s.threads u sound.positive (sound.unique u) there in
    let l = remove-Leaves s.queue u sound.ring (omega (arith, there, v.queued u)) in
    let less = l.less in
    let size_in = sound.ring.size_in in
    let q = (rq_remove_tid u s.queue).1 in
    let j = push-Joins q t l.valid (omega arith) in
    let more = j.more in
    let q' = (rq_push q t).1 in
    let between =
      preempt s t u f q' v st is j.valid (omega arith)
        (λ w. omega (arith, l.others w, j.others w)) in
    let over =
      switch_to_lem (record s { threads = modify s.threads f.slot (with_state ready); queue = q' })
        f.slot t false u (with_state ready f.tcb) between
        (get_elem?-modify s.threads f.slot f.tcb (with_state ready) st.at_slot) refl in
    rw (yield_to, other, found, gr, l.found, j.went)
      (record { switched = over.switched; inv = over.inv; now = over.now; kept = over.kept })

-- One that is not ready is refused.
pub yield_to_refused :
    (s : Tus) (t u : ℕ) (f : Found)
    → Inv s
    → (u == t) ≡ false
    → tally (ready_tid u) s.threads ≡ 0
    → yield_to s f.slot t u ≡ drop_flag s f.slot
unfolding yield_to
yield_to_refused s t u f v other absent = elim (Option-cases (get_tcb_by_tid s.threads u)) [
  | inl missing ↦ rw (other, missing) refl
  | inr (g, found) ↦
      let st = get_tcb_by_tid-Stands s.threads u g found in
      let named = st.named in
      let test : is_ready g.tcb.state ≡ false =
        ground (arith, le-tally (ready_tid u) s.threads g.slot (some g.tcb) st.at_slot) in
      rw (other, found, test) refl
]
