-- ===== src/Rsm/Inv/Quiet.antt =====
-- `try_satisfy_waiting` of Project3/rsm.c ends with its test, and then nobody who waits can be
-- woken.
use mathlib.Core.Bool.{true≢false}
use mathlib.Core.Option.{some-injective}
use native.Mathlib.Decide.{ℕ_discrete}
use bilkent_os_projects.Base.{
  ℕ, zero, suc, ◌+◌, ◌≤◌, ◌<◌, ◌≡◌, refl, Bool, true, false, some, List, [], ◌∷◌, length, get_elem?,
  set, get_elem?-lt, sym, ◌∙◌, subst, Bool-cases, Option-cases, inl, inr, if◌then◌else◌, arith,
}
use bilkent_os_projects.Rsm.State.{Proc, Shared}
use bilkent_os_projects.Rsm.Bank.{grantable, wake, visit, sweep, satisfy, try_satisfy_waiting}
use bilkent_os_projects.Rsm.Inv.Bank.{grantable-Passed}

-- The slots that wait.
abbrev pub waiters : List Proc → ℕ
waiters [] = 0
waiters (p ∷ ps) = (if p.waiting then 1 else 0) + waiters ps

waiters-le-length : (ps : List Proc) → waiters ps ≤ length ps
waiters-le-length [] = omega arith
waiters-le-length (p ∷ ps) = ground (arith, waiters-le-length ps)

waiters-set :
    (ps : List Proc) (i : ℕ) (p q : Proc)
    → get_elem? ps i ≡ some p
    → p.waiting ≡ true
    → q.waiting ≡ false
    → suc (waiters (set ps i q)) ≡ waiters ps
waiters-set [] i p q g w w' = cc
waiters-set (x ∷ ps) zero p q g w w' = let e : x ≡ p = cc in rw (e, w, w') (omega arith)
waiters-set (x ∷ ps) (suc i) p q g w w' = omega (arith, waiters-set ps i p q g w w')

waiters-wake :
    (s : Shared) (i : ℕ) (p : Proc)
    → get_elem? s.procs i ≡ some p
    → grantable s i p ≡ true
    → suc (waiters (wake s i p).procs) ≡ waiters s.procs
unfolding wake
waiters-wake s i p g h = waiters-set s.procs i p _ g (grantable-Passed s i p h).waits refl

-- A visit finds nothing and changes nothing, or wakes the process of the slot.
data Visited (i : ℕ) (s : Shared) (b : Bool) : Type 0 where
  idle :
      ((p : Proc) → get_elem? s.procs i ≡ some p → grantable s i p ≡ false)
      → visit i s b ≡ (s, b)
      → Visited i s b
  wakes :
      (p : Proc)
      → get_elem? s.procs i ≡ some p
      → grantable s i p ≡ true
      → visit i s b ≡ (wake s i p, true)
      → Visited i s b

visit_cases : (i : ℕ) (s : Shared) (b : Bool) → Visited i s b
unfolding visit
visit_cases i s b = elim (Option-cases (get_elem? s.procs i)) [
  | inl empty ↦ idle (λ p g. cc) (rw (empty, visit))
  | inr (p, g) ↦ elim (Bool-cases (grantable s i p)) [
    | inl go ↦ wakes p g go (rw (g, visit, go))
    | inr wait ↦
        idle (λ q h. subst (λ z. grantable s i z ≡ false) (some-injective p q (sym g ∙ h)) wait)
          (rw (g, visit, wait))
  ]
]

sweep-waiters-le :
    (n i : ℕ) (s : Shared) (b : Bool) → waiters (sweep n i s b).0.procs ≤ waiters s.procs
unfolding sweep
sweep-waiters-le zero i s b = omega arith
sweep-waiters-le (suc n) i s b = elim (visit_cases i s b) [
  | idle none_here e ↦ rw (e, sweep) (sweep-waiters-le n (suc i) s b)
  | wakes p g go e ↦
      rw (e, sweep)
        (omega (arith, sweep-waiters-le n (suc i) (wake s i p) true, waiters-wake s i p g go))
]

sweep-waiters-lt :
    (n i : ℕ) (s : Shared)
    → (sweep n i s false).1 ≡ true
    → waiters (sweep n i s false).0.procs < waiters s.procs
unfolding sweep
sweep-waiters-lt zero i s h = cc
sweep-waiters-lt (suc n) i s h = elim (visit_cases i s false) [
  | idle none_here e ↦ rw (e, sweep) (sweep-waiters-lt n (suc i) s (rw (e, sweep) at h))
  | wakes p g go e ↦
      rw (e, sweep)
        (omega (arith, sweep-waiters-le n (suc i) (wake s i p) true, waiters-wake s i p g go))
]

-- A pass that reports no progress has found nobody to wake.
sweep_idle :
    (n i : ℕ) (s : Shared) (b : Bool)
    → (sweep n i s b).1 ≡ false
    → (b ≡ false)
      × ((sweep n i s b).0 ≡ s)
      × ((m : ℕ) (p : Proc)
          → i ≤ m
          → m < i + n
          → get_elem? s.procs m ≡ some p
          → grantable s m p ≡ false)
unfolding sweep
sweep_idle zero i s b h = (h, refl, λ m p lo hi g. absurd (omega arith))
sweep_idle (suc n) i s b h = elim (visit_cases i s b) [
  | idle none_here e ↦
      let (old, same, rest) = sweep_idle n (suc i) s b (rw (e, sweep) at h) in
      (
        old,
        rw (e, sweep) same,
        λ m p lo hi g. elim (ℕ_discrete m i) [
          | yes here ↦ subst (λ z. grantable s z p ≡ false) (sym here) (none_here p (rw (← here) g))
          | no there ↦ rest m p (omega arith) (omega arith) g
        ],
      )
  | wakes p g go e ↦
      absurd (true≢false (sweep_idle n (suc i) (wake s i p) true (rw (e, sweep) at h)).0)
]

-- Nobody waits for a request that could be granted.
abbrev pub Quiescent : Shared → Type 0
Quiescent s = (i : ℕ) (p : Proc) → get_elem? s.procs i ≡ some p → grantable s i p ≡ false

satisfy-Quiescent : (fuel : ℕ) (s : Shared) → waiters s.procs < fuel → Quiescent (satisfy fuel s)
unfolding satisfy
satisfy-Quiescent zero s h = absurd (omega arith)
satisfy-Quiescent (suc fuel) s h = elim (Bool-cases (sweep (length s.procs) 0 s false).1) [
  | inl more ↦
      rw (more, satisfy)
        (satisfy-Quiescent fuel (sweep (length s.procs) 0 s false).0
          (omega (arith, sweep-waiters-lt (length s.procs) 0 s more)))
  | inr last ↦
      let (_, same, rest) = sweep_idle (length s.procs) 0 s false last in
      rw (last, satisfy, same)
        (λ i p g. rest i p (omega arith) (omega (arith, get_elem?-lt s.procs i g)) g)
]

-- The loop ends within its fuel, and then nobody waits for a request that could be granted.
pub try_satisfy_waiting-Quiescent : (s : Shared) → Quiescent (try_satisfy_waiting s)
unfolding try_satisfy_waiting
try_satisfy_waiting-Quiescent s =
    satisfy-Quiescent (suc (length s.procs)) s (omega (arith, waiters-le-length s.procs))
