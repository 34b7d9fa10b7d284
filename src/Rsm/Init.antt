-- ===== src/Rsm/Init.antt =====
-- `rsm_init` and `rsm_destroy` of Project3/rsm.c (lines 248-339).
use bilkent_os_projects.Base.{
  ℕ, Bool, true, false, not, ◌&&◌, ◌||◌, Option, none, some, replicate, length, leb, if◌then◌else◌,
  all_below, ℤ, pos, negsuc, minus_one,
}
use bilkent_os_projects.Rsm.State.{Proc, Shared, for_row, zero_row}
use bilkent_os_projects.Rsm.Process.{
  Local, Os, IntArray, map_existing_state, unmap_state, validate_vector_bounds, row, entry,
}

abbrev pub max_rt : ℕ
max_rt = 100

abbrev pub max_pr : ℕ
max_pr = 100

-- Whether `shm_open` with O_EXCL, `ftruncate`, `mmap`, and `sem_init` on the mutex and on each
-- process_sem[i] succeed.
pub record InitOs : Type 0 where
  pub creates : Bool
  pub truncates : Bool
  pub maps : Bool
  pub mutex_inits : Bool
  pub sem_inits : ℕ → Bool

-- `n > 0 && n <= max`
abbrev pub counts : ℤ → ℕ → Bool
counts (pos n) limit = leb 1 n && leb n limit
counts (negsuc n) limit = false

-- `avoid` is 0 or 1.
abbrev pub is_flag : ℤ → Bool
is_flag (pos n) = leb n 1
is_flag (negsuc n) = false

abbrev pub is_one : ℤ → Bool
is_one (pos n) = leb 1 n
is_one (negsuc n) = false

-- A slot after `memset` and `apid_to_pid[i] = -1`.
abbrev pub free_slot : Proc
free_slot = record {
  allocation = zero_row;
  request = zero_row;
  max_demand = zero_row;
  need = zero_row;
  pid = none;
  started = false;
  active = false;
  claimed = false;
  requested_once = false;
  waiting = false;
  sem = 0;
}

abbrev pub fresh : ℕ → ℕ → IntArray → Bool → Shared
fresh p r exist avoid = record {
  initialized = true;
  avoid_enabled = avoid;
  resource_count = r;
  existing = for_row r (row exist) zero_row;
  available = for_row r (row exist) zero_row;
  procs = replicate p free_slot;
}

-- `if (...) return -1;`, with nothing left behind.
abbrev pub refuse : Local → ℤ × Local × Option Shared
refuse l = (minus_one, l, none)

-- The value, what the process keeps, and the shared state if it was made. What fails after
-- `shm_open` is undone and the name is unlinked.
unfoldable pub rsm_init : InitOs → Local → ℤ → ℤ → IntArray → ℤ → ℤ × Local × Option Shared
rsm_init os l p_count r_count exist avoid =
    if not (counts p_count max_pr) || not (counts r_count max_rt)
    then refuse l
    else if not (validate_vector_bounds exist (entry r_count)) || not (is_flag avoid)
    then refuse l
    else if not os.creates || not os.truncates || not os.maps || not os.mutex_inits
    then refuse l
    else if not (all_below (entry p_count) os.sem_inits)
    then refuse l
    else (
      pos 0,
      record (unmap_state l) { mapped = true; fd_open = true },
      some (fresh (entry p_count) (entry r_count) exist (is_one avoid)),
    )

-- Whether the `sem_destroy` and `shm_unlink` of `rsm_destroy` succeed.
pub record DestroyOs : Type 0 where
  pub sem_destroys : ℕ → Bool
  pub mutex_destroys : Bool
  pub unlinks : Bool

-- Every semaphore is destroyed and the name unlinked even if an earlier one fails.
unfoldable pub rsm_destroy : Os → DestroyOs → Local → Shared → ℤ × Local
rsm_destroy os d l₀ s =
    let (mapped, l) = map_existing_state os l₀ in
    if not mapped then (minus_one, l) else (
      if all_below (length s.procs) d.sem_destroys && d.mutex_destroys && d.unlinks
          then pos 0
          else minus_one,
      unmap_state l,
    )
