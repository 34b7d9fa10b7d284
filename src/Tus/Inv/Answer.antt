-- ===== src/Tus/Inv/Answer.antt =====
-- Calls of `tus_yield` of Project2/tus.c that name a thread or return to the caller.
use bilkent_os_projects.Base.{
  ℕ, suc, ◌<◌, ◌≡◌, refl, sym, subst, true, false, some, ◌==◌, arith, ℤ, pos, negsuc, minus_one,
  inl, inr, Bool-cases, Option-cases,
}
use bilkent_os_projects.Tus.State.{running, Tcb, Tus, Found, modify, with_flag, current_tcb}
use bilkent_os_projects.Tus.Yield.{
  Control, returns, update, drop_flag, fail, yield_to, tus_yield, yield_from,
}
use bilkent_os_projects.Tus.Inv.{tally, ready_tid, flagged, Inv}
use bilkent_os_projects.Tus.Inv.Tally.{tally-modify, get_elem?-modify}
use bilkent_os_projects.Tus.Inv.Find.{Stands, ready_of}
use bilkent_os_projects.Tus.Inv.Switch.{HandsOver, modify-Inv}
use bilkent_os_projects.Tus.Inv.Yield.{Runs, running_found, yield_to_lem, yield_to_refused}
use bilkent_os_projects.Tus.Inv.Call.{Good, yield_guards, unmarked, mark-Inv, mark-Stands}

-- A call that returns to the running thread.
pub record Stays (x : ℤ) (s : Tus) (r : Control × Tus) : Type 0 where
  pub answer : r.0 ≡ returns x
  pub good : Good r.1
  pub now : r.1.current_tid ≡ s.current_tid
  pub kept : r.1.initialized ≡ s.initialized

-- A marked thread loses its mark again.
unmark-Good :
    (s : Tus) (t : ℕ) (f : Found) (h : Tcb → Tcb)
    → Good s
    → Runs s t f
    → (h (with_flag true f.tcb)).tid ≡ f.tcb.tid
    → (h (with_flag true f.tcb)).state ≡ f.tcb.state
    → (h (with_flag true f.tcb)).resume_flag ≡ false
    → Good (update (update s f.slot (with_flag true)) f.slot h)
unmark-Good s t f h v r same st off =
    let g = r.stands.at_slot in
    let m = modify s.threads f.slot (with_flag true) in
    let g' = get_elem?-modify s.threads f.slot f.tcb (with_flag true) g in
    let before = tally-modify flagged s.threads f.slot f.tcb (with_flag true) g in
    let after = tally-modify flagged m f.slot (with_flag true f.tcb) h g' in
    let clean = v.clean in
    let is = r.is in
    record {
      inv =
          modify-Inv (update s f.slot (with_flag true)) f.slot (with_flag true f.tcb) h
            (mark-Inv s t f true v.inv r) g' same st;
      clean = ground (arith, unmarked s t f v.clean r);
    }

drop-Stays :
    (s : Tus) (t : ℕ) (f : Found)
    → Good s
    → Runs s t f
    → Stays minus_one s (drop_flag (update s f.slot (with_flag true)) f.slot)
drop-Stays s t f v r = record {
  answer = refl;
  good = unmark-Good s t f (with_flag false) v r refl refl refl;
  now = refl;
  kept = refl;
}

-- A thread that yields to itself goes on at once.
pub tus_yield_self :
    (rand : ℕ) (s : Tus) (n : ℕ)
    → Good s
    → s.initialized ≡ true
    → s.current_tid ≡ some (suc n)
    → Stays (pos (suc n)) s (tus_yield true rand s (pos (suc n)))
unfolding yield_from yield_to
tus_yield_self rand s n v init cur =
    let t = suc n in
    let (f, r) = running_found s t v.inv cur in
    let self : (t == t) ≡ true = ground arith in
    rw (yield_guards rand s (pos t) t f v.clean init r, yield_from, yield_to, self)
      (record {
        answer = refl;
        good =
            unmark-Good s t f
              (λ c. record c { yield_result = pos t; state = running; resume_flag = false }) v r
              refl (sym r.is) refl;
        now = refl;
        kept = refl;
      })

-- Marking leaves the others as they are.
mark-ready :
    (s : Tus) (t u : ℕ) (f : Found)
    → Runs s t f
    → tally (ready_tid u) (modify s.threads f.slot (with_flag true)) ≡ tally (ready_tid u) s.threads
mark-ready s t u f r =
    ground
      (arith, tally-modify (ready_tid u) s.threads f.slot f.tcb (with_flag true) r.stands.at_slot)

-- A thread that is ready is not the running one.
pub ready_differs :
    (s : Tus) (t u : ℕ) (f : Found)
    → Inv s
    → Runs s t f
    → 0 < tally (ready_tid u) s.threads
    → (u == t) ≡ false
ready_differs s t u f v r there = elim (Bool-cases (u == t)) [
  | inr other ↦ other
  | inl same ↦
      let e : t ≡ u = ground arith in
      let st = subst (λ w. Stands s.threads w f) e r.stands in
      cc (r.is, ready_of s.threads u f st (v.sound.unique u) there)
]

-- A thread that is ready can be yielded to, and is handed over to.
pub tus_yield_ready :
    (rand : ℕ) (s : Tus) (t n : ℕ)
    → Good s
    → s.initialized ≡ true
    → s.current_tid ≡ some t
    → 0 < tally (ready_tid (suc n)) s.threads
    → HandsOver (suc n) s (tus_yield true rand s (pos (suc n)))
unfolding yield_from
tus_yield_ready rand s t n v init cur there =
    let u = suc n in
    let (f, r) = running_found s t v.inv cur in
    let over =
      yield_to_lem (update s f.slot (with_flag true)) t u
        (record { slot = f.slot; tcb = with_flag true f.tcb }) (mark-Inv s t f true v.inv r)
        (mark-Stands s t f true r) r.is (ready_differs s t u f v.inv r there)
        (omega (arith, mark-ready s t u f r)) in
    rw (yield_guards rand s (pos u) t f v.clean init r)
      (record { switched = over.switched; inv = over.inv; now = over.now; kept = over.kept })

-- Yielding to another thread that is not ready is an error, and changes nothing that matters.
pub tus_yield_refused :
    (rand : ℕ) (s : Tus) (t n : ℕ)
    → Good s
    → s.initialized ≡ true
    → s.current_tid ≡ some t
    → (suc n == t) ≡ false
    → tally (ready_tid (suc n)) s.threads ≡ 0
    → Stays minus_one s (tus_yield true rand s (pos (suc n)))
unfolding yield_from
tus_yield_refused rand s t n v init cur other absent =
    let u = suc n in
    let (f, r) = running_found s t v.inv cur in
    let e =
      yield_to_refused (update s f.slot (with_flag true)) t u
        (record { slot = f.slot; tcb = with_flag true f.tcb }) (mark-Inv s t f true v.inv r) other
        (omega (arith, mark-ready s t u f r)) in
    rw (yield_guards rand s (pos u) t f v.clean init r)
      (subst (λ x. Stays minus_one s x) (sym e) (drop-Stays s t f v r))

-- So is a negative tid.
pub tus_yield_negative :
    (rand : ℕ) (s : Tus) (t n : ℕ)
    → Good s
    → s.initialized ≡ true
    → s.current_tid ≡ some t
    → Stays minus_one s (tus_yield true rand s (negsuc n))
unfolding yield_from
tus_yield_negative rand s t n v init cur =
    let (f, r) = running_found s t v.inv cur in
    rw (yield_guards rand s (negsuc n) t f v.clean init r) (drop-Stays s t f v r)

-- A call that cannot save its context is an error.
unsaved_fails : (rand : ℕ) (s : Tus) (tid : ℤ) → tus_yield false rand s tid ≡ fail s
unfolding tus_yield
unsaved_fails rand s tid = elim (Option-cases (current_tcb s)) [
  | inl nobody ↦ rw nobody (ground arith)
  | inr (f, found) ↦ rw found (ground arith)
]

pub tus_yield_unsaved :
    (rand : ℕ) (s : Tus) (tid : ℤ) → Good s → Stays minus_one s (tus_yield false rand s tid)
tus_yield_unsaved rand s tid v =
    subst (λ r. Stays minus_one s r) (sym (unsaved_fails rand s tid))
      (record { answer = refl; good = v; now = refl; kept = refl })
