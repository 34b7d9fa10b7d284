-- ===== src/Tus/State.antt =====
-- The library's state in Project2/tus.c (lines 11-34) and the thread table (lines 108-174).
-- A saved context and a stack are not fields: what a switch resumes is described in `Tus.Yield`.
use bilkent_os_projects.Base.{
  ℕ, zero, suc, Bool, false, Option, none, some, List, [], ◌∷◌, ◌==◌, if◌then◌else◌, ℤ, pos, negsuc,
}
use bilkent_os_projects.Tus.Queue.{Ring, Alg, max_threads}

pub data ThreadState : Type 0 where
  ready running ended : ThreadState

-- `yield_result` is -1 until the thread yields.
pub record Tcb : Type 0 where
  pub tid : ℕ
  pub state : ThreadState
  pub resume_flag : Bool
  pub yield_result : ℤ

-- threads[0 .. TUS_MAXTHREADS), where a null pointer is `none`.
abbrev pub Table : Type 0
Table = List (Option Tcb)

-- `current_tid` is `none` for -1, and `sched_alg` is read only once `initialized` is set.
pub record Tus : Type 0 where
  pub threads : Table
  pub current_tid : Option ℕ
  pub initialized : Bool
  pub sched_alg : Alg
  pub queue : Ring

abbrev pub has_tid : ℕ → Option Tcb → Bool
has_tid t none = false
has_tid t (some c) = c.tid == t

-- A thread and the slot that it stands in.
pub record Found : Type 0 where
  pub slot : ℕ
  pub tcb : Tcb

abbrev pub found_at : ℕ → Option Tcb → Option Found
found_at i none = none
found_at i (some c) = some (record { slot = i; tcb = c })

-- `find_slot_by_tid`, from slot i on, with the thread that stands there.
unfoldable pub find_slot_by_tid : ℕ → ℕ → Table → Option Found
find_slot_by_tid t i [] = none
find_slot_by_tid t i (o ∷ ts) = if has_tid t o then found_at i o else find_slot_by_tid t (suc i) ts

-- No thread has a tid that is not positive.
unfoldable pub get_tcb_by_tid : Table → ℕ → Option Found
get_tcb_by_tid ts t = if t == 0 then none else find_slot_by_tid t 0 ts

-- The argument of a call of the library.
abbrev pub get_tcb : Table → ℤ → Option Found
get_tcb ts (pos t) = get_tcb_by_tid ts t
get_tcb ts (negsuc t) = none

-- `find_free_slot`, from slot i on.
unfoldable pub find_free_slot : ℕ → Table → Option ℕ
find_free_slot i [] = none
find_free_slot i (none ∷ ts) = some i
find_free_slot i (some c ∷ ts) = find_free_slot (suc i) ts

abbrev pub current_tcb : Tus → Option Found
current_tcb s = elim s.current_tid [ none ↦ none | some t ↦ get_tcb_by_tid s.threads t ]

unfoldable pub count_existing_threads : Table → ℕ
count_existing_threads [] = 0
count_existing_threads (none ∷ ts) = count_existing_threads ts
count_existing_threads (some c ∷ ts) = suc (count_existing_threads ts)

-- `allocate_tid`, from `tid` on, for the rounds left.
unfoldable pub allocate_from : ℕ → ℕ → Table → Option ℕ
allocate_from zero tid ts = none
allocate_from (suc n) tid ts =
    let rest = allocate_from n (suc tid) ts in
    elim (get_tcb_by_tid ts tid) [ none ↦ some tid | some c ↦ rest ]

unfoldable pub allocate_tid : Table → Option ℕ
allocate_tid ts = allocate_from max_threads 1 ts

-- A write through the pointer threads[i].
abbrev pub modify : Table → ℕ → (Tcb → Tcb) → Table
modify [] i f = []
modify (none ∷ ts) zero f = none ∷ ts
modify (some c ∷ ts) zero f = some (f c) ∷ ts
modify (o ∷ ts) (suc i) f = o ∷ modify ts i f

abbrev pub with_state : ThreadState → Tcb → Tcb
with_state st c = record c { state = st }

abbrev pub with_flag : Bool → Tcb → Tcb
with_flag b c = record c { resume_flag = b }

-- `threads[slot] = NULL`; the memory is freed.
abbrev pub clear : Table → ℕ → Table
clear [] i = []
clear (o ∷ ts) zero = none ∷ ts
clear (o ∷ ts) (suc i) = o ∷ clear ts i

unfoldable pub destroy_thread : Table → ℕ → Table
destroy_thread ts t = elim (find_slot_by_tid t 0 ts) [ none ↦ ts | some f ↦ clear ts f.slot ]
