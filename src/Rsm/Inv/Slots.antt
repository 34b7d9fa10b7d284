-- ===== src/Rsm/Inv/Slots.antt =====
-- Writing one slot of the shared state of Project3/rsm.c: what keeps the invariant.
use bilkent_os_projects.Base.{
  ℕ, ◌+◌, ◌≤◌, ◌<◌, ◌≡◌, refl, subst, sym, true, false, not, some, get_elem?, set, All-get, All-set,
  arith,
}
use bilkent_os_projects.Rsm.Reduce.{Vec}
use bilkent_os_projects.Rsm.Reduce.Step.{Fits, Completable}
use bilkent_os_projects.Rsm.Reduce.Simulate.{implies, slack}
use bilkent_os_projects.Rsm.Reduce.Alike.{Completable-replace, Completable-renew}
use bilkent_os_projects.Rsm.State.{Proc, Shared}
use bilkent_os_projects.Rsm.Bank.{is_safe, grant_proc, take_row}
use bilkent_os_projects.Rsm.Api.{registered, ended, claims, give_row}
use bilkent_os_projects.Rsm.Request.{gives}
use bilkent_os_projects.Rsm.Inv.{need_job, need_jobs, IsSafe, Inv}
use bilkent_os_projects.Rsm.Inv.Rows.{Ok, registered-Ok, ended-Ok, claims-Ok, gives-Ok}
use bilkent_os_projects.Rsm.Inv.Held.{held-set}
use bilkent_os_projects.Rsm.Inv.Safety.{
  get_elem?-need_jobs, need_jobs-set, owed-need_jobs, is_safe_iff,
}

-- Slot i and the available row are written.
abbrev pub put : Shared → Vec → ℕ → Proc → Shared
put s u i q = record s { available = u; procs = set s.procs i q }

module _ (s : Shared) (v : Inv s) (i : ℕ) (p : Proc) (g : get_elem? s.procs i ≡ some p) where
  pub slot-Ok : Ok s p
  slot-Ok = All-get (Ok s) s.procs i p v.slots g

  pub put-Inv :
      (u : Vec) (q : Proc)
      → Ok s q
      → ((j : ℕ) → j < s.resource_count → u j + q.allocation j ≡ s.available j + p.allocation j)
      → (s.avoid_enabled ≡ true → IsSafe (put s u i q))
      → Inv (put s u i q)
  put-Inv u q ok same safe = record {
    slots = All-set (Ok s) s.procs i q v.slots ok;
    conserved = λ j lt. omega (arith, same j lt, held-set s.procs i p q j g, v.conserved j lt);
    safe = safe;
  }

  -- The process of the slot may take the place of one that has been given its slack.
  put-IsSafe :
      (u : Vec) (q : Proc)
      → implies (not p.active) (not q.active) ≡ true
      → ((j : ℕ) → j < s.resource_count → s.available j + slack (need_job p) (need_job q) j ≤ u j)
      → s.avoid_enabled ≡ true
      → IsSafe (put s u i q)
  put-IsSafe u q f enough on =
      subst (λ l. Completable s.resource_count l u) (sym (need_jobs-set s.procs i q))
        (Completable-replace s.resource_count (need_jobs s.procs) s.available u i (need_job p)
          (need_job q) (get_elem?-need_jobs s.procs i p g) f enough (v.safe on))

  -- A process that holds nothing may come to need no more than all there is.
  put-IsSafe_renew :
      (q : Proc)
      → ((j : ℕ) → j < s.resource_count → p.allocation j ≡ 0)
      → q.active ≡ true
      → ((j : ℕ) → j < s.resource_count → q.need j ≤ s.existing j)
      → s.avoid_enabled ≡ true
      → IsSafe (put s s.available i q)
  put-IsSafe_renew q none_held act fit on =
      subst (λ l. Completable s.resource_count l s.available) (sym (need_jobs-set s.procs i q))
        (Completable-renew s.resource_count (need_jobs s.procs) s.available i (need_job p)
          (need_job q) (get_elem?-need_jobs s.procs i p g) none_held (ground arith)
          (λ j lt. omega (arith, fit j lt, v.conserved j lt, owed-need_jobs s s.procs j lt v.slots))
          (v.safe on))

  pub registered-Inv :
      (pid : ℕ) → p.started ≡ false → Inv (put s s.available i (registered s pid p))
  registered-Inv pid idle =
      put-Inv s.available (registered s pid p) (registered-Ok s p slot-Ok pid idle)
        (λ j lt. ground arith)
        (put-IsSafe_renew (registered s pid p)
          (λ j lt. ground (arith, slot-Ok.live, slot-Ok.rows j lt)) refl
          (λ j lt. ground (arith, slot-Ok.live, slot-Ok.rows j lt)))

  pub ended-Inv : p.active ≡ true → Inv (put s (give_row s p.allocation) i (ended s p))
  ended-Inv act =
      put-Inv (give_row s p.allocation) (ended s p) (ended-Ok s p slot-Ok) (λ j lt. ground arith)
        (put-IsSafe (give_row s p.allocation) (ended s p) (ground arith) (λ j lt. ground arith))

  pub claims-Inv :
      (claim : Vec)
      → p.started ≡ true
      → s.avoid_enabled ≡ true
      → p.claimed ≡ false
      → Fits s.resource_count claim s.existing
      → Inv (put s s.available i (claims s claim p))
  claims-Inv claim st on fresh fit =
      put-Inv s.available (claims s claim p) (claims-Ok s p slot-Ok claim st on fresh fit)
        (λ j lt. ground arith)
        (put-IsSafe_renew (claims s claim p) (λ j lt. ground (arith, slot-Ok.rows j lt))
          (ground (arith, slot-Ok.live)) (λ j lt. ground (arith, fit j lt)))

  pub gives-Inv :
      (rel : Vec)
      → p.active ≡ true
      → Fits s.resource_count rel p.allocation
      → Inv (put s (give_row s rel) i (gives s rel p))
  gives-Inv rel act fit =
      put-Inv (give_row s rel) (gives s rel p) (gives-Ok s p slot-Ok rel act fit)
        (λ j lt. ground (arith, fit j lt))
        (λ on.
          put-IsSafe (give_row s rel) (gives s rel p) (ground arith)
            (λ j lt. ground (arith, fit j lt)) on)

  -- Entries that are neither in the needs nor in the allocation.
  pub same-Inv :
      (q : Proc)
      → Ok s q
      → q.allocation ≡ p.allocation
      → q.need ≡ p.need
      → q.active ≡ p.active
      → Inv (put s s.available i q)
  same-Inv q ok a n act =
      put-Inv s.available q ok (λ j lt. rw a)
        (put-IsSafe s.available q (ground (arith, act)) (λ j lt. rw (a, n) (ground arith)))

  -- A grant that the safety test has passed, if it is asked for. `q` is granted the row.
  pub grant-Inv :
      (req : Vec) (q : Proc)
      → Ok s q
      → Fits s.resource_count req s.available
      → (s.avoid_enabled ≡ true → is_safe s i req ≡ true)
      → q.allocation ≡ (grant_proc s req p).allocation
      → q.need ≡ (grant_proc s req p).need
      → q.active ≡ p.active
      → Inv (put s (take_row s req) i q)
  grant-Inv req q ok fit test a n act =
      put-Inv (take_row s req) q ok (λ j lt. rw a (ground (arith, fit j lt)))
        (λ on.
          rw need_jobs-set
            (rw (need_jobs-set, ← a, ← n, ← act) at ((is_safe_iff s i req p g on).0 (test on)).1))
