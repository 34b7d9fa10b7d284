-- ===== src/Tus/Inv/Call.antt =====
-- A whole call of `tus_yield` of Project2/tus.c, and the thread that is switched to behind its own.
use bilkent_os_projects.Base.{
  ℕ, ◌+◌, ◌≡◌, refl, ap, ◌∙◌, Bool, true, false, Option, none, some, [], ◌∷◌, ◌++◌, not,
  if◌then◌else◌, arith, ℤ, pos,
}
use bilkent_os_projects.Tus.Queue.{pick_at}
use bilkent_os_projects.Tus.Queue.Contents.{contents}
use bilkent_os_projects.Tus.Queue.Remove.{chosen}
use bilkent_os_projects.Tus.State.{Tus, Found, with_flag, current_tcb}
use bilkent_os_projects.Tus.Yield.{Control, update, fail, tus_yield, yield_from, resumed}
use bilkent_os_projects.Tus.Inv.{flagged, Inv, Clean}
use bilkent_os_projects.Tus.Inv.Tally.{get_elem?-modify, le-tally}
use bilkent_os_projects.Tus.Inv.Find.{Stands}
use bilkent_os_projects.Tus.Inv.Switch.{HandsOver, modify-Inv}
use bilkent_os_projects.Tus.Inv.Yield.{Runs, running_found, yield_any_lem}

-- A state in which the running thread is in its own code.
pub record Good (s : Tus) : Type 0 where
  pub inv : Inv s
  pub clean : Clean s

-- The thread that runs is not marked.
pub unmarked : (s : Tus) (t : ℕ) (f : Found) → Clean s → Runs s t f → f.tcb.resume_flag ≡ false
unmarked s t f clean r =
    let is = r.is in
    ground (arith, clean, le-tally flagged s.threads f.slot (some f.tcb) r.stands.at_slot)

pub running-current : {s : Tus} {t : ℕ} {f : Found} → Runs s t f → current_tcb s ≡ some f
running-current r = rw r.cur r.found

-- The mark is set, or taken off.
pub mark-Inv :
    (s : Tus) (t : ℕ) (f : Found) (b : Bool)
    → Inv s
    → Runs s t f
    → Inv (update s f.slot (with_flag b))
mark-Inv s t f b v r = modify-Inv s f.slot f.tcb (with_flag b) v r.stands.at_slot refl refl

pub mark-Stands :
    (s : Tus) (t : ℕ) (f : Found) (b : Bool)
    → Runs s t f
    → Stands
        (update s f.slot (with_flag b)).threads
        t
        (record { slot = f.slot; tcb = with_flag b f.tcb })
mark-Stands s t f b r = record {
  at_slot = get_elem?-modify s.threads f.slot f.tcb (with_flag b) r.stands.at_slot;
  named = r.stands.named;
}

-- Behind its guards, a call of the running thread is `yield_from`.
pub yield_guards :
    (rand : ℕ) (s : Tus) (tid : ℤ) (t : ℕ) (f : Found)
    → Clean s
    → s.initialized ≡ true
    → Runs s t f
    → tus_yield true rand s tid ≡ yield_from rand tid (update s f.slot (with_flag true)) f.slot t
unfolding tus_yield
yield_guards rand s tid t f clean init r =
    let marked = λ (f : Found). update s f.slot (with_flag true) in
    let behind = λ (f : Found).
      if f.tcb.resume_flag
      then resumed s f.slot f.tcb
      else yield_from rand tid (marked f) f.slot f.tcb.tid in
    let search =
      λ (o : Option Found). elim o as (λ _. Control × Tus) [ none ↦ fail s | some f ↦ behind f ] in
    ap (λ b. if not b then fail s else search (current_tcb s)) init
    ∙ ap search (running-current r)
    ∙ ap
        (λ b. if b then resumed s f.slot f.tcb else yield_from rand tid (marked f) f.slot f.tcb.tid)
        (unmarked s t f clean r)
    ∙ ap (yield_from rand tid (marked f) f.slot) r.stands.named

-- With its context saved, the running thread can always yield to any: the next thread is the
-- oldest of the queue with the caller at its end, or the one there that the random number names.
-- It is handed over to, and the invariant is kept.
pub tus_yield_any :
    (rand : ℕ) (s : Tus) (t : ℕ)
    → Good s
    → s.initialized ≡ true
    → s.current_tid ≡ some t
    → (next : ℕ) × ((pick_at
          (chosen s.sched_alg rand (s.queue.size + 1))
          (contents s.queue ++ t ∷ [])).0
        ≡ some next)
      × HandsOver next s (tus_yield true rand s (pos 0))
unfolding yield_from
tus_yield_any rand s t v init cur =
    let (f, r) = running_found s t v.inv cur in
    let (next, e, over) =
      yield_any_lem rand (update s f.slot (with_flag true)) t
        (record { slot = f.slot; tcb = with_flag true f.tcb }) (mark-Inv s t f true v.inv r)
        (mark-Stands s t f true r) r.is in
    (
      next,
      e,
      rw (yield_guards rand s (pos 0) t f v.clean init r)
          (record { switched = over.switched; inv = over.inv; now = over.now; kept = over.kept }),
    )
