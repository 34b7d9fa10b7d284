-- ===== src/Rsm/Inv/Held.antt =====
-- Bookkeeping of Project3/rsm.c: what is available and what is held add up, call by call.
use bilkent_os_projects.Base.{
  ℕ, zero, suc, ◌+◌, ◌≤◌, ◌≡◌, List, [], ◌∷◌, some, get_elem?, set, arith,
}
use bilkent_os_projects.Rsm.State.{Proc, held}

-- Writing a slot changes the total by the difference of the two allocations.
pub held-set :
    (ps : List Proc) (i : ℕ) (p q : Proc) (j : ℕ)
    → get_elem? ps i ≡ some p
    → held (set ps i q) j + p.allocation j ≡ held ps j + q.allocation j
held-set [] i p q j g = cc
held-set (x ∷ ps) zero p q j g = let e : x ≡ p = cc in rw e (omega arith)
held-set (x ∷ ps) (suc i) p q j g = omega (arith, held-set ps i p q j g)

pub allocation-le-held :
    (ps : List Proc) (i : ℕ) (p : Proc) (j : ℕ)
    → get_elem? ps i ≡ some p
    → p.allocation j ≤ held ps j
allocation-le-held [] i p j g = cc
allocation-le-held (x ∷ ps) zero p j g = let e : x ≡ p = cc in rw e (omega arith)
allocation-le-held (x ∷ ps) (suc i) p j g = omega (arith, allocation-le-held ps i p j g)
