-- ===== src/Tus/Inv/Cancel.antt =====
-- `tus_cancel` of Project2/tus.c and the invariant.
use bilkent_os_projects.Base.{
  ℕ, ◌+◌, ◌≤◌, ◌<◌, ◌≡◌, refl, Bool, true, false, Option, none, some, ◌==◌, arith, ℤ, pos, negsuc,
  minus_one, inl, inr, Bool-cases, Option-cases,
}
use bilkent_os_projects.Tus.Queue.{Ring, rq_remove_tid}
use bilkent_os_projects.Tus.State.{Tcb, Tus, Found, get_tcb_by_tid, modify, ready}
use bilkent_os_projects.Tus.Api.{tus_cancel, is_current, is_ended}
use bilkent_os_projects.Tus.Inv.{
  tally, ready_tid, with_tid, running_tid, any_ready, any_running, flagged, Inv,
}
use bilkent_os_projects.Tus.Inv.Tally.{tally-modify, tally_mono, le-tally, tally-two}
use bilkent_os_projects.Tus.Inv.Find.{ready_le, Stands, get_tcb_by_tid-Stands, find_ready}
use bilkent_os_projects.Tus.Inv.Count.{remove-Leaves, Leaves}
use bilkent_os_projects.Tus.Inv.Switch.{modify-Sound}
use bilkent_os_projects.Tus.Inv.Yield.{running_found}
use bilkent_os_projects.Tus.Inv.Call.{Good}
use bilkent_os_projects.Tus.Inv.Answer.{ready_differs}
use bilkent_os_projects.Tus.Inv.Exit.{as_ended}

-- A ready thread ends and leaves the queue.
end_ready :
    (s : Tus) (u : ℕ) (f : Found) (r : Bool × Ring)
    → Good s
    → Stands s.threads u f
    → f.tcb.state ≡ ready
    → Leaves u s.queue r
    → Good (record s { threads = modify s.threads f.slot as_ended; queue = r.1 })
      × (tally (ready_tid u) (modify s.threads f.slot as_ended) ≡ 0)
end_ready s u f r v st is l =
    let inv = v.inv in
    let clean = v.clean in
    let less = l.less in
    let g = st.at_slot in
    let named = st.named in
    let (now, cur, alone) = inv.current in
    let most = tally_mono (ready_tid u) (with_tid u) s.threads (ready_le u) in
    (
      record {
        inv = record {
          sound = modify-Sound s f.slot f.tcb as_ended r.1 s.current_tid inv.sound g refl l.valid;
          queued = λ w. ground (
            arith,
            inv.queued w,
            l.others w,
            tally-modify (ready_tid w) s.threads f.slot f.tcb as_ended g,
          );
          total =
              ground (arith, inv.total, tally-modify any_ready s.threads f.slot f.tcb as_ended g);
          current = (
            now,
            cur,
            ground (arith, alone, tally-modify (running_tid now) s.threads f.slot f.tcb as_ended g),
          );
          single =
              ground
                (arith, inv.single, tally-modify any_running s.threads f.slot f.tcb as_ended g);
        };
        clean = ground (arith, tally-modify flagged s.threads f.slot f.tcb as_ended g);
      },
      ground
          (arith, inv.sound.unique u, tally-modify (ready_tid u) s.threads f.slot f.tcb as_ended g),
    )

-- A thread that is ready is not the running one, and is cancelled: it is no longer ready, and the
-- state stays good.
pub tus_cancel_ready :
    (s : Tus) (t u : ℕ)
    → Good s
    → s.initialized ≡ true
    → s.current_tid ≡ some t
    → 0 < tally (ready_tid u) s.threads
    → ((tus_cancel s (pos u)).0 ≡ pos 0)
      × Good (tus_cancel s (pos u)).1
      × ((tus_cancel s (pos u)).1.current_tid ≡ s.current_tid)
      × ((tus_cancel s (pos u)).1.initialized ≡ s.initialized)
      × (tally (ready_tid u) (tus_cancel s (pos u)).1.threads ≡ 0)
unfolding tus_cancel
tus_cancel_ready s t u v init cur there =
    let (h, r) = running_found s t v.inv cur in
    let sound = v.inv.sound in
    let other = ready_differs s t u h v.inv r there in
    let (f, found, st, is) = find_ready s.threads u sound.positive (sound.unique u) there in
    let l = remove-Leaves s.queue u sound.ring (omega (arith, there, v.inv.queued u)) in
    let (good, gone) = end_ready s u f (rq_remove_tid u s.queue) v st is l in
    rw (tus_cancel, init, cur, other, found, is, l.found) (refl, good, cur, init, gone)

two_running :
    (t u : ℕ)
    → (u == t) ≡ false
    → (o : Option Tcb) → running_tid t o + running_tid u o ≤ any_running o
two_running t u other none = omega arith
two_running t u other (some c) = ground arith

-- Any other thread is not: the call is an error and changes nothing.
pub tus_cancel_refused :
    (s : Tus) (tid : ℤ)
    → Inv s
    → ((u : ℕ) → tid ≡ pos u → tally (ready_tid u) s.threads ≡ 0)
    → tus_cancel s tid ≡ (minus_one, s)
unfolding tus_cancel
tus_cancel_refused s (negsuc n) v absent = ground arith
tus_cancel_refused s (pos u) v absent =
    let (t, cur, alone) = v.current in
    elim (Bool-cases (u == t)) [
      | inl same ↦
          let here : is_current s (pos u) ≡ true = rw (cur, same) refl in rw here (ground arith)
      | inr other ↦ elim (Option-cases (get_tcb_by_tid s.threads u)) [
        | inl missing ↦ rw missing (ground arith)
        | inr (f, found) ↦
            let st = get_tcb_by_tid-Stands s.threads u f found in
            let named = st.named in
            let none_ready = absent u refl in
            let over : is_ended f.tcb.state ≡ true = ground (
              arith,
              v.single,
              le-tally (ready_tid u) s.threads f.slot (some f.tcb) st.at_slot,
              le-tally (running_tid u) s.threads f.slot (some f.tcb) st.at_slot,
              tally-two (running_tid t) (running_tid u) any_running s.threads
                  (two_running t u other),
            ) in
            rw (found, over) (ground arith)
      ]
    ]
