-- ===== src/Rsm/Bounds.antt =====
-- How large the numbers in the shared state of Project3/rsm.c get, after `rsm_init` and any calls.
use bilkent_os_projects.Base.{
  ℕ, ◌+◌, ◌≤◌, ◌<◌, ◌≡◌, refl, sym, subst, true, some, get_elem?, ltb, arith, ℤ,
}
use bilkent_os_projects.Rsm.Reduce.{Vec}
use bilkent_os_projects.Rsm.State.{Proc, Shared}
use bilkent_os_projects.Rsm.Process.{Local, IntArray, entry, row}
use bilkent_os_projects.Rsm.Init.{InitOs, rsm_init, fresh, is_one}
use bilkent_os_projects.Rsm.Inv.{Inv}
use bilkent_os_projects.Rsm.Inv.Held.{allocation-le-held}
use bilkent_os_projects.Rsm.Inv.Slots.{slot-Ok}
use bilkent_os_projects.Rsm.Reach.{made, Follows, here, call, Follows-Reachable, Reachable-Inv}
use bilkent_os_projects.Rsm.Frame.{HasResources, after-HasResources}

-- For resource type j, of which `total` were given to `rsm_init`: what is available, and what slot
-- `p` has and asks for.
pub record Bounded (total : ℕ) (s : Shared) (p : Proc) (j : ℕ) : Type 0 where
  pub available : s.available j ≤ total
  pub allocation : p.allocation j ≤ total
  pub both : s.available j + p.allocation j ≤ total
  pub request : p.request j ≤ total
  pub need : s.avoid_enabled ≡ true → p.need j + p.allocation j ≤ total

Inv-Bounded :
    (s : Shared) (i : ℕ) (p : Proc) (j : ℕ)
    → Inv s
    → get_elem? s.procs i ≡ some p
    → j < s.resource_count
    → Bounded (s.existing j) s p j
Inv-Bounded s i p j v g lt =
    let row = (slot-Ok s v i p g).rows j lt in
    let total = v.conserved j lt in
    let part = allocation-le-held s.procs i p j g in
    record {
      available = omega arith;
      allocation = omega arith;
      both = omega arith;
      request = row.within_total;
      need = λ on. omega (arith, row.balance on, row.bounded on);
    }

Follows-HasResources :
    (s₀ s : Shared) (r : ℕ) (existing : Vec)
    → HasResources r existing s₀
    → Follows s₀ s
    → HasResources r existing s
Follows-HasResources s₀ _ r existing has here = has
Follows-HasResources s₀ s r existing has (call {s = t} h os l c e) =
    subst (HasResources r existing) (sym e)
      (after-HasResources r existing os l t (Follows-HasResources s₀ t r existing has h) c)

made-HasResources :
    (os : InitOs) (l : Local) (p_count r_count : ℤ) (exist : IntArray) (avoid : ℤ) (s : Shared)
    → (rsm_init os l p_count r_count exist avoid).2 ≡ some s
    → HasResources
        (entry r_count)
        (fresh (entry p_count) (entry r_count) exist (is_one avoid)).existing
        s
unfolding rsm_init
made-HasResources os l p_count r_count exist avoid s h =
    let t = fresh (entry p_count) (entry r_count) exist (is_one avoid) in
    let same : t ≡ s = ground arith in
    subst (HasResources (entry r_count) t.existing) same (refl, refl)

-- After a call of `rsm_init` that makes the state, and any calls of any processes in any order, for each
-- slot and each resource type what is available, allocated and requested is at most the number of
-- instances that `rsm_init` was given, available and allocated together are, and in avoidance mode
-- need and allocation together are.
pub numbers_within_existing :
    (os : InitOs) (l : Local) (p_count r_count : ℤ) (exist : IntArray) (avoid : ℤ) (s₀ s : Shared)
    (i : ℕ) (p : Proc) (j : ℕ)
    → (rsm_init os l p_count r_count exist avoid).2 ≡ some s₀
    → Follows s₀ s
    → get_elem? s.procs i ≡ some p
    → j < entry r_count
    → Bounded (row exist j) s p j
numbers_within_existing os l p_count r_count exist avoid s₀ s i p j h d g lt =
    let has =
      Follows-HasResources s₀ s (entry r_count) _
        (made-HasResources os l p_count r_count exist avoid s₀ h) d in
    let inside : ltb j (entry r_count) ≡ true = ground arith in
    let total : s.existing j ≡ row exist j = rw (has.1, inside) refl in
    subst (λ n. Bounded n s p j) total
      (Inv-Bounded s i p j
        (Reachable-Inv s (Follows-Reachable s₀ s (made os l p_count r_count exist avoid h) d)) g
        (subst (λ n. j < n) (sym has.0) lt))
