-- ===== src/Rsm/Bank.antt =====
-- Granting requests in Project3/rsm.c: the safety test of the Banker's algorithm (`is_safe`), the
-- grant itself, and the loop over the waiting processes (`try_satisfy_waiting`).
-- Rows hold no negative number: the vectors of the callers are validated, and what is subtracted
-- is never larger (`Rsm.Inv`). `work[j] < 0` is tested before the subtraction.
use bilkent_os_projects.Base.{
  ℕ, zero, suc, ◌+◌, ◌-◌, Bool, true, false, not, ◌&&◌, ◌||◌, none, some, List, [], ◌∷◌, length,
  get_elem?, set, ◌==◌, if◌then◌else◌,
}
use bilkent_os_projects.Rsm.Reduce.{Vec, Job, fits, reduce, all_finished}
use bilkent_os_projects.Rsm.State.{Proc, Shared, for_row}

-- Process i as `is_safe` sees it: need[i] less and allocation[i] plus the request, if i == apid.
-- A difference below zero fits in any `work`, as zero does.
abbrev pub safe_job : Bool → Vec → Proc → Job
safe_job mine req p = record {
  want = λ j. p.need j - (if mine then req j else 0);
  gain = λ j. p.allocation j + (if mine then req j else 0);
  finish = not p.active;
}

unfoldable pub safe_jobs : ℕ → ℕ → Vec → List Proc → List Job
safe_jobs i apid req [] = []
safe_jobs i apid req (p ∷ ps) = safe_job (i == apid) req p ∷ safe_jobs (suc i) apid req ps

unfoldable pub is_safe : Shared → ℕ → Vec → Bool
is_safe s apid req =
    fits s.resource_count req s.available
    && all_finished
        (reduce (suc (length (safe_jobs 0 apid req s.procs))) s.resource_count
          (safe_jobs 0 apid req s.procs) (λ j. s.available j - req j)).0

-- The loop that moves the granted row (lines 232-239 and 505-512).
abbrev pub grant_proc : Shared → Vec → Proc → Proc
grant_proc s req p = record p {
  allocation = for_row s.resource_count (λ j. p.allocation j + req j) p.allocation;
  need =
      if s.avoid_enabled then for_row s.resource_count (λ j. p.need j - req j) p.need else p.need;
  request = for_row s.resource_count (λ j. 0) p.request;
}

abbrev pub take_row : Shared → Vec → Vec
take_row s req = for_row s.resource_count (λ j. s.available j - req j) s.available

-- The tests that process i passes before it is woken.
unfoldable pub grantable : Shared → ℕ → Proc → Bool
grantable s i p =
    p.waiting
    && p.active
    && fits s.resource_count p.request s.available
    && (not s.avoid_enabled || is_safe s i p.request)

-- `waiting[i] = 0; sem_post(&process_sem[i]);` after the grant.
abbrev pub woken : Proc → Proc
woken p = record p { waiting = false; sem = suc p.sem }

unfoldable pub wake : Shared → ℕ → Proc → Shared
wake s i p = record s {
  available = take_row s p.request;
  procs = set s.procs i (woken (grant_proc s p.request p));
}

-- The body of the inner loop, for process i.
unfoldable pub visit : ℕ → Shared → Bool → Shared × Bool
visit i s progress = elim (get_elem? s.procs i) [
  | none ↦ (s, progress)
  | some p ↦ if grantable s i p then (wake s i p, true) else (s, progress)
]

-- `for (i = 0; i < process_count; ++i)`, by the rounds left.
unfoldable pub sweep : ℕ → ℕ → Shared → Bool → Shared × Bool
sweep zero i s progress = (s, progress)
sweep (suc n) i s progress =
    let (s', progress') = visit i s progress in sweep n (suc i) s' progress'

-- `while (progress)` on fuel; `Rsm.Bank.Quiescent` shows that a round for each process and one more
-- are enough.
unfoldable pub satisfy : ℕ → Shared → Shared
satisfy zero s = s
satisfy (suc fuel) s =
    let r = sweep (length s.procs) 0 s false in elim r.1 [ true ↦ satisfy fuel r.0 | false ↦ r.0 ]

unfoldable pub try_satisfy_waiting : Shared → Shared
try_satisfy_waiting s = satisfy (suc (length s.procs)) s
