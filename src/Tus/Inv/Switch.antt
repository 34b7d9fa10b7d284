-- ===== src/Tus/Inv/Switch.antt =====
-- Handing over to the next thread in Project2/tus.c.
use bilkent_os_projects.Base.{
  ℕ, ◌≤◌, ◌≡◌, refl, sym, inl, inr, ◌∙◌, Bool, Option, none, some, get_elem?, arith, pos,
}
use bilkent_os_projects.Tus.Queue.{Ring}
use bilkent_os_projects.Tus.Queue.Contents.{IsValid}
use bilkent_os_projects.Tus.State.{
  ready, running, Tcb, Tus, Found, get_tcb_by_tid, modify, with_state,
}
use bilkent_os_projects.Tus.Yield.{Control, switches, update, switch_to}
use bilkent_os_projects.Tus.Inv.{
  with_tid, ready_tid, running_tid, any_ready, any_running, Sound, Inv, Between,
}
use bilkent_os_projects.Tus.Inv.Tally.{tally-modify, tally_mono, modify-cases, length-modify}
use bilkent_os_projects.Tus.Inv.Find.{Stands, find_ready}

-- A write that keeps the tid keeps the table sound, whatever happens to a valid queue.
pub modify-Sound :
    (s : Tus) (i : ℕ) (c : Tcb) (f : Tcb → Tcb) (q : Ring) (cur : Option ℕ)
    → Sound s
    → get_elem? s.threads i ≡ some (some c)
    → (f c).tid ≡ c.tid
    → IsValid q
    → Sound (record s { threads = modify s.threads i f; queue = q; current_tid = cur })
modify-Sound s i c f q cur v g same ok = record {
  ring = ok;
  slots = length-modify s.threads i f ∙ v.slots;
  unique = λ t. ground (arith, v.unique t, tally-modify (with_tid t) s.threads i c f g);
  positive = ground (arith, v.positive, tally-modify (with_tid 0) s.threads i c f g);
}

running_le_any : (t : ℕ) (o : Option Tcb) → running_tid t o ≤ any_running o
running_le_any t none = omega arith
running_le_any t (some c) = ground arith

-- The next thread starts to run.
pub activate_found :
    (next : ℕ) (s : Tus) (f : Found)
    → Between next s
    → Stands s.threads next f
    → f.tcb.state ≡ ready
    → Inv (record s {
      threads = modify s.threads f.slot (with_state running);
      current_tid = some next;
    })
activate_found next s f v st is =
    let g = st.at_slot in
    let named = st.named in
    let runs = tally-modify any_running s.threads f.slot f.tcb (with_state running) g in
    let own = tally-modify (running_tid next) s.threads f.slot f.tcb (with_state running) g in
    let before = tally_mono (running_tid next) any_running s.threads (running_le_any next) in
    record {
      sound =
          modify-Sound s f.slot f.tcb (with_state running) s.queue (some next) v.sound g refl
            v.sound.ring;
      queued = λ t. ground (
        arith,
        v.queued t,
        tally-modify (ready_tid t) s.threads f.slot f.tcb (with_state running) g,
      );
      total =
          ground
            (arith, v.total, tally-modify any_ready s.threads f.slot f.tcb (with_state running) g);
      current = (next, refl, ground (arith, v.idle));
      single = ground (arith, v.idle);
    }

-- A thread that is to run next is found, and it is ready.
pub find_next :
    (next : ℕ) (s : Tus)
    → Between next s
    → (f : Found) × (get_tcb_by_tid s.threads next ≡ some f)
      × Stands s.threads next f
      × (f.tcb.state ≡ ready)
find_next next s v =
    find_ready s.threads next v.sound.positive (v.sound.unique next)
      (let q = v.queued next in ground arith)

-- A call that hands over to `next`, and the state that `next` goes on in.
pub record HandsOver (next : ℕ) (s : Tus) (r : Control × Tus) : Type 0 where
  pub switched : r.0 ≡ switches next
  pub inv : Inv r.1
  pub now : r.1.current_tid ≡ some next
  pub kept : r.1.initialized ≡ s.initialized

-- A write that keeps the tid and the state of a thread changes nothing between two threads.
modify-Between :
    (next : ℕ) (s : Tus) (i : ℕ) (c : Tcb) (h : Tcb → Tcb)
    → Between next s
    → get_elem? s.threads i ≡ some (some c)
    → (h c).tid ≡ c.tid
    → (h c).state ≡ c.state
    → Between next (update s i h)
modify-Between next s i c h v g same st = record {
  sound = modify-Sound s i c h s.queue s.current_tid v.sound g same v.sound.ring;
  queued = λ t. ground (arith, v.queued t, tally-modify (ready_tid t) s.threads i c h g);
  total = ground (arith, v.total, tally-modify any_ready s.threads i c h g);
  idle = ground (arith, v.idle, tally-modify any_running s.threads i c h g);
}

-- The same for the running thread.
pub modify-Inv :
    (s : Tus) (i : ℕ) (c : Tcb) (h : Tcb → Tcb)
    → Inv s
    → get_elem? s.threads i ≡ some (some c)
    → (h c).tid ≡ c.tid
    → (h c).state ≡ c.state
    → Inv (update s i h)
modify-Inv s i c h v g same st =
    let (t, cur, alone) = v.current in
    record {
      sound = modify-Sound s i c h s.queue s.current_tid v.sound g same v.sound.ring;
      queued = λ t. ground (arith, v.queued t, tally-modify (ready_tid t) s.threads i c h g);
      total = ground (arith, v.total, tally-modify any_ready s.threads i c h g);
      current = (t, cur, ground (arith, alone, tally-modify (running_tid t) s.threads i c h g));
      single = ground (arith, v.single, tally-modify any_running s.threads i c h g);
    }

-- Once the caller is ready, the next thread is handed over to.
pub switch_to_lem :
    (s : Tus) (slot caller : ℕ) (any : Bool) (next : ℕ) (c : Tcb)
    → Between next s
    → get_elem? s.threads slot ≡ some (some c)
    → c.state ≡ ready
    → HandsOver next s (switch_to s slot caller any next)
unfolding switch_to
switch_to_lem s slot caller any next c v g is =
    let (f, found, st, fr) = find_next next s v in
    let h = λ (c : Tcb). record c { yield_result = pos next; state = ready } in
    let v' = modify-Between next s slot c h v g refl (sym is) in
    rw (switch_to, found)
      (elim (modify-cases s.threads slot f.slot f.tcb h st.at_slot) [
        | inl same ↦ record {
          switched = refl;
          inv =
              activate_found next (update s slot h) f v'
                (record { at_slot = same; named = st.named }) fr;
          now = refl;
          kept = refl;
        }
        | inr own ↦ record {
          switched = refl;
          inv =
              activate_found next (update s slot h) (record { slot = f.slot; tcb = h f.tcb }) v'
                (record { at_slot = own; named = st.named }) refl;
          now = refl;
          kept = refl;
        }
      ])
