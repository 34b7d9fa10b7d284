-- ===== src/Rsm/Reach.antt =====
-- Every history of the resource manager of Project3/rsm.c: `rsm_init`, and then calls of any
-- processes in any order.
use bilkent_os_projects.Base.{
  ℕ, zero, suc, ◌≡◌, refl, sym, subst, Bool, none, some, replicate, All, Option-cases, inl, inr,
  arith, ℤ,
}
use bilkent_os_projects.Rsm.Reduce.Step.{start, Finished}
use bilkent_os_projects.Rsm.State.{Shared, held}
use bilkent_os_projects.Rsm.Process.{Local, Os, IntArray, entry}
use bilkent_os_projects.Rsm.Api.{rsm_process_started, rsm_process_ended, rsm_claim}
use bilkent_os_projects.Rsm.Request.{rsm_request, resume, rsm_release, rsm_detection}
use bilkent_os_projects.Rsm.Init.{InitOs, rsm_init, fresh, free_slot, is_one}
use bilkent_os_projects.Rsm.Inv.{Inv, need_jobs}
use bilkent_os_projects.Rsm.Inv.Rows.{Ok}
use bilkent_os_projects.Rsm.Inv.Calls.{
  rsm_process_started-Inv, rsm_process_ended-Inv, rsm_claim-Inv, rsm_request-Inv, rsm_release-Inv,
  resume-Inv,
}

-- A call with its arguments; `resumes` is the end of the wait of a request that sleeps.
pub data Call : Type 0 where
  starts : ℤ → Call
  ends : Call
  claims requests releases : IntArray → Call
  detects : Call
  resumes : Bool → ℕ → Call

-- The shared state after a call; a process that goes on sleeping changes nothing.
abbrev pub after : Os → Local → Shared → Call → Shared
after os l s (starts apid) = (rsm_process_started os l s apid).state
after os l s ends = (rsm_process_ended os l s).state
after os l s (claims c) = (rsm_claim os l s c).state
after os l s (requests q) = (rsm_request os l s q).state
after os l s (releases q) = (rsm_release os l s q).state
after os l s detects = (rsm_detection os l s).state
after os l s (resumes waits a) = elim (resume waits s a) [ none ↦ s | some (z, s') ↦ s' ]

pub data Reachable : Shared → Type 0 where
  made :
      (os : InitOs) (l : Local) (p_count r_count : ℤ) (exist : IntArray) (avoid : ℤ) {s : Shared}
      → (rsm_init os l p_count r_count exist avoid).2 ≡ some s
      → Reachable s
  next :
      {s : Shared}
      → Reachable s
      → (os : Os) (l : Local) (c : Call) {s' : Shared} → s' ≡ after os l s c
      → Reachable s'

-- A history of calls from a state on.
pub data Follows (s₀ : Shared) : Shared → Type 0 where
  here : Follows s₀ s₀
  call :
      {s : Shared}
      → Follows s₀ s
      → (os : Os) (l : Local) (c : Call) {s' : Shared} → s' ≡ after os l s c
      → Follows s₀ s'

pub Follows-Reachable : (s₀ s : Shared) → Reachable s₀ → Follows s₀ s → Reachable s
Follows-Reachable s₀ _ d here = d
Follows-Reachable s₀ s d (call {s = t} h os l c e) = next (Follows-Reachable s₀ t d h) os l c e

slots_free : (s : Shared) (n : ℕ) → All (Ok s) (replicate n free_slot)
slots_free s zero = tt
slots_free s (suc n) = (record { live = refl; rows = λ j lt. ground arith }, slots_free s n)

held_free : (n j : ℕ) → held (replicate n free_slot) j ≡ 0
held_free zero j = refl
held_free (suc n) j = omega (arith, held_free n j)

jobs_free : (n : ℕ) → Finished (need_jobs (replicate n free_slot))
jobs_free zero = tt
jobs_free (suc n) = (refl, jobs_free n)

fresh-Inv : (p r : ℕ) (exist : IntArray) (avoid : Bool) → Inv (fresh p r exist avoid)
fresh-Inv p r exist avoid = record {
  slots = slots_free (fresh p r exist avoid) p;
  conserved = λ j lt. omega (arith, held_free p j);
  safe = λ on. (need_jobs (replicate p free_slot), _, start, jobs_free p);
}

pub rsm_init-Inv :
    (os : InitOs) (l : Local) (p_count r_count : ℤ) (exist : IntArray) (avoid : ℤ) (s : Shared)
    → (rsm_init os l p_count r_count exist avoid).2 ≡ some s
    → Inv s
unfolding rsm_init
rsm_init-Inv os l p_count r_count exist avoid s h =
    subst Inv (ground arith) (fresh-Inv (entry p_count) (entry r_count) exist (is_one avoid))

pub after-Inv : (os : Os) (l : Local) (s : Shared) (c : Call) → Inv s → Inv (after os l s c)
unfolding rsm_detection
after-Inv os l s (starts apid) v = rsm_process_started-Inv os l s v apid
after-Inv os l s ends v = rsm_process_ended-Inv os l s v
after-Inv os l s (claims c) v = rsm_claim-Inv os l s v c
after-Inv os l s (requests q) v = rsm_request-Inv os l s v q
after-Inv os l s (releases q) v = rsm_release-Inv os l s v q
after-Inv os l s detects v = ground arith
after-Inv os l s (resumes waits a) v = elim (Option-cases (resume waits s a)) [
  | inl asleep ↦ rw (asleep, after) v
  | inr ((z, s'), e) ↦ rw (e, after) (resume-Inv os l s v waits a z s' e)
]

-- After any history: every slot is in order, in each resource type what is available and what is
-- held add up to what exists, and in avoidance mode there is an order in which every active
-- process can get all that it may still ask for, and end.
pub Reachable-Inv : (s : Shared) → Reachable s → Inv s
Reachable-Inv s (made os l p_count r_count exist avoid h) =
    rsm_init-Inv os l p_count r_count exist avoid s h
Reachable-Inv s (next {s = t} d os l c e) =
    subst Inv (sym e) (after-Inv os l t c (Reachable-Inv t d))
