-- ===== src/Rsm/State.antt =====
-- The shared state of Project3/rsm.c (`rsm_shared_state`, lines 15-37), as an array of records
-- in place of a record of arrays: `procs` has one entry for each of the `process_count` slots.
use bilkent_os_projects.Base.{ℕ, ◌+◌, Bool, Option, List, [], ◌∷◌, ltb, if◌then◌else◌}
use bilkent_os_projects.Rsm.Reduce.{Vec}

-- The entries of slot i. `pid` is apid_to_pid[i], with `none` for -1; `sem` is the value of
-- process_sem[i].
pub record Proc : Type 0 where
  pub allocation : Vec
  pub request : Vec
  pub max_demand : Vec
  pub need : Vec
  pub pid : Option ℕ
  pub started : Bool
  pub active : Bool
  pub claimed : Bool
  pub requested_once : Bool
  pub waiting : Bool
  pub sem : ℕ

-- `mutex` is not a field: a call that takes it runs to the unlock, so calls are atomic.
pub record Shared : Type 0 where
  pub initialized : Bool
  pub avoid_enabled : Bool
  pub resource_count : ℕ
  pub existing : Vec
  pub available : Vec
  pub procs : List Proc

-- `for (j = 0; j < resource_count; ++j) u[j] = f(j);`
abbrev pub for_row : ℕ → Vec → Vec → Vec
for_row r f u = λ j. if ltb j r then f j else u j

abbrev pub zero_row : Vec
zero_row = λ j. 0

-- What all processes hold of resource type j.
abbrev pub held : List Proc → Vec
held [] j = 0
held (p ∷ ps) j = p.allocation j + held ps j
