-- ===== src/Rsm/Process.antt =====
-- What a process keeps for itself in Project3/rsm.c (`g_state`, `g_shm_fd`, `g_local_apid`), how it
-- attaches to the shared state, and how it finds its slot. The answers of the operating system in
-- a call are the argument `Os`.
use bilkent_os_projects.Base.{
  ℕ, suc, Bool, true, false, ◌&&◌, Option, none, some, List, [], ◌∷◌, get_elem?, ◌==◌,
  if◌then◌else◌, all_below, ℤ, pos, negsuc,
}
use bilkent_os_projects.Rsm.Reduce.{Vec}
use bilkent_os_projects.Rsm.State.{Proc, Shared}

-- `mapped` is `g_state != NULL`, `fd_open` is `g_shm_fd >= 0`, and `apid` is `none` for -1.
pub record Local : Type 0 where
  pub pid : ℕ
  pub mapped : Bool
  pub fd_open : Bool
  pub apid : Option ℕ

-- Whether `shm_open`, `mmap` and `sem_wait` on the mutex succeed. The loop in `lock_state` repeats
-- a wait that a signal interrupts, so `locks` is the answer of the last one.
pub record Os : Type 0 where
  pub opens : Bool
  pub maps : Bool
  pub locks : Bool

-- An `int` array of the caller; `none` is a null pointer.
abbrev pub IntArray : Type 0
IntArray = Option (ℕ → ℤ)

unfoldable pub map_existing_state : Os → Local → Bool × Local
map_existing_state os l =
    if l.mapped
    then (true, l)
    else if os.opens
    then (if os.maps
        then (true, record l { mapped = true; fd_open = true })
        else (false, record l { fd_open = false }))
    else (false, record l { fd_open = false })

unfoldable pub unmap_state : Local → Local
unmap_state l = record l { mapped = false; fd_open = false; apid = none }

-- `lock_state`: `g_state` is null only before `map_existing_state` has succeeded.
unfoldable pub lock_state : Os → Local → Bool
lock_state os l = l.mapped && os.locks

abbrev pub is_nonneg : ℤ → Bool
is_nonneg (pos n) = true
is_nonneg (negsuc n) = false

unfoldable pub validate_vector_bounds : IntArray → ℕ → Bool
unfolding all_below
validate_vector_bounds none len = false
validate_vector_bounds (some vec) len = all_below len (λ i. is_nonneg (vec i))

-- The row that a validated array holds.
abbrev pub entry : ℤ → ℕ
entry (pos n) = n
entry (negsuc n) = 0

abbrev pub row : IntArray → Vec
row none j = 0
row (some vec) j = entry (vec j)

-- `started[i] && apid_to_pid[i] == pid`
abbrev pub is_mine : ℕ → Proc → Bool
is_mine pid p = p.started && elim p.pid [ none ↦ false | some q ↦ q == pid ]

-- The loop of `current_apid_locked` (lines 138-143), from slot i on.
unfoldable pub find_pid : ℕ → ℕ → List Proc → Option ℕ
find_pid pid i [] = none
find_pid pid i (p ∷ ps) = if is_mine pid p then some i else find_pid pid (suc i) ps

-- Whether the slot that the process remembers is still its own.
abbrev pub remembers : Shared → ℕ → Option ℕ → Bool
remembers s pid none = false
remembers s pid (some a) = elim (get_elem? s.procs a) [ none ↦ false | some p ↦ is_mine pid p ]

abbrev pub remember : Local → Option ℕ → Option ℕ × Local
remember l none = (none, l)
remember l (some i) = (some i, record l { apid = some i })

unfoldable pub current_apid_locked : Shared → Local → Option ℕ × Local
unfolding find_pid
current_apid_locked s l =
    if remembers s l.pid l.apid then (l.apid, l) else remember l (find_pid l.pid 0 s.procs)
