-- ===== src/Tus/Run.antt =====
-- Runs of a program that uses the threads library of Project2/tus.c: the calls that the running
-- thread makes, one after the other, over all switches.
use bilkent_os_projects.Base.{ℕ, ◌≡◌, Bool, true, false, some, length, ℤ}
use bilkent_os_projects.Tus.Queue.{Alg}
use bilkent_os_projects.Tus.State.{Tus}
use bilkent_os_projects.Tus.Yield.{returns, switches, arrive, tus_yield, tus_exit}
use bilkent_os_projects.Tus.Api.{
  alg_of, tus_init, tus_create_thread, tus_cancel, tus_join, join_again,
}
use bilkent_os_projects.Tus.Inv.Call.{Good}

-- One call of the running thread. After a switch the other thread goes on behind its own call.
pub data Step : Tus → Tus → Type 0 where
  yields_to :
      {s : Tus} (saves : Bool) (rand : ℕ) (tid : ℤ) (next : ℕ) (s' : Tus)
      → tus_yield saves rand s tid ≡ (switches next, s')
      → Step s (arrive s' next)
  yields_back :
      {s : Tus} (saves : Bool) (rand : ℕ) (tid : ℤ) (x : ℤ) (s' : Tus)
      → tus_yield saves rand s tid ≡ (returns x, s')
      → Step s s'
  leaves :
      {s : Tus} (rand : ℕ) (next : ℕ) (s' : Tus)
      → tus_exit rand s ≡ (switches next, s')
      → Step s (arrive s' next)
  creates :
      {s : Tus} (has_start gets saves : Bool) → Step s (tus_create_thread has_start gets saves s).1
  cancels : {s : Tus} (tid : ℤ) → Step s (tus_cancel s tid).1
  joins : {s : Tus} (tid : ℤ) → Step s (tus_join s tid).1
  joins_again : {s : Tus} (tid x : ℤ) → Step s (join_again s tid x).1

-- The library is started once, by a call of `tus_init` that succeeds.
pub data Reachable : Tus → Type 0 where
  starts :
      (s : Tus) (salg : ℤ) (alg : Alg)
      → s.initialized ≡ false
      → alg_of salg ≡ some alg
      → length s.queue.ready_q ≡ 64
      → Reachable (tus_init true true s salg).1
  goes_on : {s s' : Tus} → Reachable s → Step s s' → Reachable s'

-- Started, and in a good state.
pub record Healthy (s : Tus) : Type 0 where
  pub good : Good s
  pub started : s.initialized ≡ true
