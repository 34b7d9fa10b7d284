-- ===== src/Tus/Reach.antt =====
-- Every run of Project2/tus.c keeps the invariant.
use bilkent_os_projects.Base.{
  ℕ, zero, suc, ◌≡◌, sym, ap, ◌∙◌, subst, Bool, true, false, not, ◌&&◌, ◌||◌, Option, none, some,
  ◌==◌, leb, arith, ℤ, pos, negsuc, minus_one, inl, inr, ◌⊎◌, Bool-cases, Option-cases,
  if◌then◌else◌,
}
use bilkent_os_projects.Tus.State.{Tus, Found, current_tcb, count_existing_threads}
use bilkent_os_projects.Tus.Yield.{Control, returns, switches, arrive, tus_yield, tus_exit}
use bilkent_os_projects.Tus.Api.{
  tus_create_thread, tus_cancel, tus_join, Join, joined, join_check, join_again, tid_of,
}
use bilkent_os_projects.Tus.Inv.{tally, ready_tid, Inv}
use bilkent_os_projects.Tus.Inv.Switch.{HandsOver}
use bilkent_os_projects.Tus.Inv.Call.{Good, tus_yield_any}
use bilkent_os_projects.Tus.Inv.Answer.{
  Stays, tus_yield_self, tus_yield_ready, tus_yield_refused, tus_yield_negative, tus_yield_unsaved,
}
use bilkent_os_projects.Tus.Inv.Arrive.{arrive-Good}
use bilkent_os_projects.Tus.Inv.Exit.{tus_exit_last, tus_exit_next}
use bilkent_os_projects.Tus.Inv.Cancel.{tus_cancel_ready, tus_cancel_refused}
use bilkent_os_projects.Tus.Inv.Join.{join_check_cases}
use bilkent_os_projects.Tus.Inv.Create.{tus_create_thread_lem}
use bilkent_os_projects.Tus.Inv.Init.{tus_init_lem, create_refused}
use bilkent_os_projects.Tus.Run.{
  Step, yields_to, yields_back, leaves, creates, cancels, joins, joins_again, Reachable, starts,
  goes_on, Healthy,
}

-- A call of `tus_yield` hands over, or returns to the caller.
tus_yield_cases :
    (saves : Bool) (rand : ℕ) (s : Tus) (tid : ℤ)
    → Healthy s
    → ((next : ℕ) × HandsOver next s (tus_yield saves rand s tid))
      ⊎ ((x : ℤ) × Stays x s (tus_yield saves rand s tid))
tus_yield_cases false rand s tid v = inr (minus_one, tus_yield_unsaved rand s tid v.good)
tus_yield_cases true rand s (negsuc n) v =
    let (t, cur, _) = v.good.inv.current in
    inr (minus_one, tus_yield_negative rand s t n v.good v.started cur)
tus_yield_cases true rand s (pos zero) v =
    let (t, cur, _) = v.good.inv.current in
    let (next, _, over) = tus_yield_any rand s t v.good v.started cur in inl (next, over)
tus_yield_cases true rand s (pos (suc n)) v =
    let (t, cur, _) = v.good.inv.current in
    elim (Bool-cases (suc n == t)) [
      | inl same ↦
          let e : t ≡ suc n = ground arith in
          inr (pos (suc n), tus_yield_self rand s n v.good v.started (cur ∙ ap some e))
      | inr other ↦ elim (Bool-cases (tally (ready_tid (suc n)) s.threads == 0)) [
        | inl absent ↦
            inr (minus_one, tus_yield_refused rand s t n v.good v.started cur other (ground arith))
        | inr there ↦ inl (suc n, tus_yield_ready rand s t n v.good v.started cur (ground arith))
      ]
    ]

target : {m n : ℕ} → switches m ≡ switches n → m ≡ n
target {m} {n} e = cc e

-- The thread that is handed over to goes on in good health.
arrives :
    (next n : ℕ) (s s' : Tus) (r : Control × Tus)
    → Healthy s
    → HandsOver next s r
    → r ≡ (switches n, s')
    → Healthy (arrive s' n)
arrives next n s s' r v over e =
    let state : r.1 ≡ s' = ap (λ x. x.1) e in
    let where_to : switches next ≡ switches n = sym over.switched ∙ ap (λ x. x.0) e in
    let now : s'.current_tid ≡ some n =
      ap (λ x. x.current_tid) (sym state) ∙ over.now ∙ ap some (target where_to) in
    let (good, _, kept) = arrive-Good s' n (subst Inv state over.inv) now in
    record {
      good = good;
      started = kept ∙ ap (λ x. x.initialized) (sym state) ∙ over.kept ∙ v.started;
    }

keeps_on :
    (x y : ℤ) (s s' : Tus) (r : Control × Tus)
    → Healthy s
    → Stays x s r
    → r ≡ (returns y, s')
    → Healthy s'
keeps_on x y s s' r v stays e =
    let state : r.1 ≡ s' = ap (λ x. x.1) e in
    record {
      good = subst Good state stays.good;
      started = ap (λ x. x.initialized) (sym state) ∙ stays.kept ∙ v.started;
    }

yield_step :
    (saves : Bool) (rand : ℕ) (s : Tus) (tid : ℤ) (n : ℕ) (s' : Tus)
    → Healthy s
    → tus_yield saves rand s tid ≡ (switches n, s')
    → Healthy (arrive s' n)
yield_step saves rand s tid n s' v e = elim (tus_yield_cases saves rand s tid v) [
  | inl (next, over) ↦ arrives next n s s' (tus_yield saves rand s tid) v over e
  | inr (x, stays) ↦ cc (stays.answer, ap (λ x. x.0) e)
]

return_step :
    (saves : Bool) (rand : ℕ) (s : Tus) (tid : ℤ) (y : ℤ) (s' : Tus)
    → Healthy s
    → tus_yield saves rand s tid ≡ (returns y, s')
    → Healthy s'
return_step saves rand s tid y s' v e = elim (tus_yield_cases saves rand s tid v) [
  | inl (next, over) ↦ cc (over.switched, ap (λ x. x.0) e)
  | inr (x, stays) ↦ keeps_on x y s s' (tus_yield saves rand s tid) v stays e
]

exit_step :
    (rand : ℕ) (s : Tus) (n : ℕ) (s' : Tus)
    → Healthy s
    → tus_exit rand s ≡ (switches n, s')
    → Healthy (arrive s' n)
exit_step rand s n s' v e = elim (Bool-cases (s.queue.size == 0)) [
  | inl empty ↦ cc (tus_exit_last rand s v.good.inv (ground arith), ap (λ x. x.0) e)
  | inr left ↦
      let (t, cur, _) = v.good.inv.current in
      let (next, _, over) = tus_exit_next rand s t v.good.inv v.started cur (ground arith) in
      arrives next n s s' (tus_exit rand s) v over e
]

refused_step :
    (has_start gets saves : Bool) (s : Tus)
    → Healthy s
    → (not s.initialized
        || not (has_start && gets && saves)
        || leb 64 (count_existing_threads s.threads))
      ≡ true
    → Healthy (tus_create_thread has_start gets saves s).1
refused_step has_start gets saves s v refused =
    subst (λ r. Healthy r.1) (sym (create_refused has_start gets saves s refused)) v

create_step :
    (has_start gets saves : Bool) (s : Tus)
    → Healthy s
    → Healthy (tus_create_thread has_start gets saves s).1
create_step false gets saves s v = refused_step false gets saves s v (ground arith)
create_step true false saves s v = refused_step true false saves s v (ground arith)
create_step true true false s v = refused_step true true false s v (ground arith)
create_step true true true s v = elim (Bool-cases (leb 64 (count_existing_threads s.threads))) [
  | inl full ↦ refused_step true true true s v (ground arith)
  | inr room ↦
      let (t, made) = tus_create_thread_lem s v.good v.started (ground arith) in
      record { good = made.good; started = made.kept ∙ v.started }
]

same_tid : {m n : ℕ} → pos m ≡ pos n → m ≡ n
same_tid {m} {n} e = cc e

cancel_step : (s : Tus) (tid : ℤ) → Healthy s → Healthy (tus_cancel s tid).1
cancel_step s (negsuc n) v =
    subst (λ r. Healthy r.1) (sym (tus_cancel_refused s (negsuc n) v.good.inv (λ u e. cc e))) v
cancel_step s (pos u) v =
    let (t, cur, _) = v.good.inv.current in
    elim (Bool-cases (tally (ready_tid u) s.threads == 0)) [
      | inl absent ↦
          let nobody : tally (ready_tid u) s.threads ≡ 0 = ground arith in
          subst (λ r. Healthy r.1)
            (sym (
              tus_cancel_refused s (pos u) v.good.inv
                (λ w e. subst (λ x. tally (ready_tid x) s.threads ≡ 0) (same_tid e) nobody)))
            v
      | inr there ↦
          let (_, good, _, kept, _) = tus_cancel_ready s t u v.good v.started cur (ground arith) in
          record { good = good; started = kept ∙ v.started }
    ]

check_step : (s : Tus) (tid : ℤ) → Healthy s → Healthy (join_check s tid).1
unfolding join_check
check_step s (negsuc n) v = v
check_step s (pos t) v = elim (join_check_cases s t v.good) [
  | inl (_, same) ↦ subst (λ r. Healthy r.1) (sym same) v
  | inr (inl (_, _, _, same)) ↦ subst (λ r. Healthy r.1) (sym same) v
  | inr (inr (_, _, _, gone)) ↦ record { good = gone.good; started = gone.kept ∙ v.started }
]

again_step : (s : Tus) (tid x : ℤ) → Healthy s → Healthy (join_again s tid x).1
unfolding join_again
again_step s tid (negsuc zero) v = v
again_step s tid (negsuc (suc n)) v = check_step s tid v
again_step s tid (pos n) v = check_step s tid v

join_step : (s : Tus) (tid : ℤ) → Healthy s → Healthy (tus_join s tid).1
unfolding tus_join
join_step s tid v =
    let fails : Join × Tus = (joined minus_one, s) in
    let behind = λ (o : Option Found). elim o as (λ _. Join × Tus) [
      | none ↦ fails
      | some f ↦ if f.tcb.tid == tid_of tid then fails else join_check s tid
    ] in
    subst (λ r. Healthy r.1)
      (sym (ap (λ b. if not b then fails else behind (current_tcb s)) v.started))
      (elim (Option-cases (current_tcb s)) [
        | inl nobody ↦ subst (λ o. Healthy (behind o).1) (sym nobody) v
        | inr (f, found) ↦
            subst (λ o. Healthy (behind o).1) (sym found)
              (elim (Bool-cases (f.tcb.tid == tid_of tid)) [
                | inl own ↦ rw own v
                | inr other ↦ rw other (check_step s tid v)
              ])
      ])

-- One call keeps the library in good health.
Step-Healthy : {s s' : Tus} → Step s s' → Healthy s → Healthy s'
Step-Healthy {s} (yields_to saves rand tid next s' e) v = yield_step saves rand s tid next s' v e
Step-Healthy {s} (yields_back saves rand tid x s' e) v = return_step saves rand s tid x s' v e
Step-Healthy {s} (leaves rand next s' e) v = exit_step rand s next s' v e
Step-Healthy {s} (creates has_start gets saves) v = create_step has_start gets saves s v
Step-Healthy {s} (cancels tid) v = cancel_step s tid v
Step-Healthy {s} (joins tid) v = join_step s tid v
Step-Healthy {s} (joins_again tid x) v = again_step s tid x v

-- In every state that a run reaches: the ring is in order, there are 64 slots and no two threads
-- have the same tid; exactly one thread runs, and it is the current one; the queue holds exactly
-- the ready threads, each once; and the running thread is not on its way out of an earlier yield.
pub Reachable-Healthy : (s : Tus) → Reachable s → Healthy s
Reachable-Healthy _ (starts s salg alg fresh known full) =
    let begun = tus_init_lem s salg alg fresh known full in
    record { good = begun.good; started = begun.started }
Reachable-Healthy s' (goes_on {s} r step) = Step-Healthy step (Reachable-Healthy s r)
