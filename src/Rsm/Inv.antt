-- ===== src/Rsm/Inv.antt =====
-- The invariant of the shared state of Project3/rsm.c. Children: `Rows` (each slot), `Held`
-- (nothing is lost or made up), `Safety` (avoidance keeps a way for everybody to complete),
-- `Bank` (granting and waking), `Calls` (every call).
pub mod Rows
pub mod Held
pub mod Safety
pub mod Slots
pub mod Bank
pub mod Quiet
pub mod Calls
use bilkent_os_projects.Base.{ℕ, ◌+◌, ◌≤◌, ◌<◌, ◌≡◌, Bool, true, false, not, List, map, All}
use bilkent_os_projects.Rsm.Reduce.{Vec, Job}
use bilkent_os_projects.Rsm.Reduce.Step.{Completable}
use bilkent_os_projects.Rsm.State.{Proc, Shared, held}

-- The entries of a slot for resource type j, of which `total` exist.
pub record Fine (avoid : Bool) (total : ℕ) (p : Proc) (j : ℕ) : Type 0 where
  pub idle : p.active ≡ false → p.allocation j + p.request j + p.max_demand j + p.need j ≡ 0
  pub unclaimed : avoid ≡ true → p.claimed ≡ false → p.allocation j + p.max_demand j ≡ 0
  pub balance : avoid ≡ true → p.need j + p.allocation j ≡ p.max_demand j
  pub bounded : avoid ≡ true → p.max_demand j ≤ total
  pub within_need : avoid ≡ true → p.request j ≤ p.need j
  pub within_total : p.request j ≤ total
  pub quiet : p.waiting ≡ false → p.request j ≡ 0

-- A slot of a manager with `r` resource types.
pub record ProcOk (avoid : Bool) (r : ℕ) (existing : Vec) (p : Proc) : Type 0 where
  pub live : p.started ≡ p.active
  pub rows : (j : ℕ) → j < r → Fine avoid (existing j) p j

-- Each active process wants at most its need and gives back its allocation.
abbrev pub need_job : Proc → Job
need_job p = record { want = p.need; gain = p.allocation; finish = not p.active }

abbrev pub need_jobs : List Proc → List Job
need_jobs = map need_job

-- There is an order in which every active process can get all that it may still ask for, and end.
abbrev pub IsSafe : Shared → Type 0
IsSafe s = Completable s.resource_count (need_jobs s.procs) s.available

pub record Inv (s : Shared) : Type 0 where
  pub slots : All (ProcOk s.avoid_enabled s.resource_count s.existing) s.procs
  pub conserved : (j : ℕ) → j < s.resource_count → s.available j + held s.procs j ≡ s.existing j
  pub safe : s.avoid_enabled ≡ true → IsSafe s
