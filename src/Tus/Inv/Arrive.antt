-- ===== src/Tus/Inv/Arrive.antt =====
-- The thread that is switched to goes on behind its `tus_yield` of Project2/tus.c, or starts.
use bilkent_os_projects.Base.{
  ℕ, ◌≤◌, ◌≡◌, refl, sym, ap, subst, ◌∙◌, false, Option, none, some, arith, inl, inr, Bool-cases,
}
use bilkent_os_projects.Tus.State.{running, Tcb, Tus, Found}
use bilkent_os_projects.Tus.Yield.{update, resumed, resume, arrive}
use bilkent_os_projects.Tus.Inv.{tally, flagged, Inv, any_running}
use bilkent_os_projects.Tus.Inv.Tally.{tally-modify, le-tally, tally-others}
use bilkent_os_projects.Tus.Inv.Switch.{modify-Inv}
use bilkent_os_projects.Tus.Inv.Yield.{Runs, running_found}
use bilkent_os_projects.Tus.Inv.Call.{Good}

flagged_le : (o : Option Tcb) → flagged o ≤ any_running o
flagged_le none = omega arith
flagged_le (some c) = ground arith

-- The mark of the running thread is the only one that counts.
only_mark :
    (s : Tus) (t : ℕ) (f : Found)
    → Inv s
    → Runs s t f
    → tally flagged s.threads ≡ flagged (some f.tcb)
only_mark s t f v r =
    let g = r.stands.at_slot in
    let is = r.is in
    ground (
      arith,
      v.single,
      le-tally flagged s.threads f.slot (some f.tcb) g,
      tally-others flagged any_running s.threads f.slot (some f.tcb) flagged_le g,
    )

resumed-Good : (s : Tus) (t : ℕ) (f : Found) → Inv s → Runs s t f → Good (resumed s f.slot f.tcb).1
resumed-Good s t f v r =
    let g = r.stands.at_slot in
    let h = λ (c : Tcb). record c { resume_flag = false; state = running } in
    let mark = only_mark s t f v r in
    let is = r.is in
    record {
      inv =
          subst (λ o. Inv (record (update s f.slot h) { current_tid = o }))
            (r.cur ∙ ap some (sym r.stands.named))
            (modify-Inv s f.slot f.tcb h v g refl (sym r.is));
      clean = ground (arith, tally-modify flagged s.threads f.slot f.tcb h g);
    }

-- Whoever is switched to goes on in a good state.
pub arrive-Good :
    (s : Tus) (t : ℕ)
    → Inv s
    → s.current_tid ≡ some t
    → Good (arrive s t)
      × ((arrive s t).current_tid ≡ some t)
      × ((arrive s t).initialized ≡ s.initialized)
unfolding resume
arrive-Good s t v cur =
    let (f, r) = running_found s t v cur in
    let mark = only_mark s t f v r in
    elim (Bool-cases f.tcb.resume_flag) [
      | inl waits ↦
          rw (arrive, r.found, waits) (resumed-Good s t f v r, ap some r.stands.named, refl)
      | inr starts ↦
          let is = r.is in
          rw (arrive, r.found, starts) (record { inv = v; clean = ground arith }, cur, refl)
    ]
