-- ===== src/Rsm/Inv/Bank.antt =====
-- `try_satisfy_waiting` of Project3/rsm.c keeps the invariant, ends, and leaves nobody waiting who
-- could be woken.
use bilkent_os_projects.Base.{
  ℕ, zero, suc, ◌≡◌, refl, Bool, true, false, some, length, get_elem?, Bool-cases, Option-cases,
  inl, inr, arith,
}
use bilkent_os_projects.Rsm.Reduce.Step.{Fits, fits-Fits}
use bilkent_os_projects.Rsm.State.{Proc, Shared}
use bilkent_os_projects.Rsm.Bank.{
  is_safe, grant_proc, grantable, wake, woken, visit, sweep, satisfy, try_satisfy_waiting,
}
use bilkent_os_projects.Rsm.Inv.{Inv}
use bilkent_os_projects.Rsm.Inv.Rows.{woken-Ok}
use bilkent_os_projects.Rsm.Inv.Slots.{slot-Ok, grant-Inv}

-- What a process that is woken has passed.
pub record Passed (s : Shared) (i : ℕ) (p : Proc) : Type 0 where
  pub waits : p.waiting ≡ true
  pub runs : p.active ≡ true
  pub fit : Fits s.resource_count p.request s.available
  pub test : s.avoid_enabled ≡ true → is_safe s i p.request ≡ true

pub grantable-Passed : (s : Shared) (i : ℕ) (p : Proc) → grantable s i p ≡ true → Passed s i p
unfolding grantable
grantable-Passed s i p h = record {
  waits = ground arith;
  runs = ground arith;
  fit = fits-Fits s.resource_count p.request s.available (ground arith);
  test = λ on. ground arith;
}

pub wake-Inv :
    (s : Shared) (i : ℕ) (p : Proc)
    → get_elem? s.procs i ≡ some p
    → grantable s i p ≡ true
    → Inv s
    → Inv (wake s i p)
unfolding wake
wake-Inv s i p g h v =
    let passed = grantable-Passed s i p h in
    grant-Inv s v i p g p.request (woken (grant_proc s p.request p))
      (woken-Ok s p (slot-Ok s v i p g) passed.runs) passed.fit passed.test refl refl refl

module _ {ℓ} (P : Shared → Type ℓ)
    (woken_too : (s : Shared) (i : ℕ) (p : Proc)
      → get_elem? s.procs i ≡ some p
      → grantable s i p ≡ true
      → P s
      → P (wake s i p)) where
  visit_rule : (i : ℕ) (s : Shared) (b : Bool) → P s → P (visit i s b).0
  unfolding visit
  visit_rule i s b v = elim (Option-cases (get_elem? s.procs i)) [
    | inl empty ↦ rw (empty, visit) v
    | inr (p, g) ↦ elim (Bool-cases (grantable s i p)) [
      | inl go ↦ rw (g, visit, go) (woken_too s i p g go v)
      | inr wait ↦ rw (g, visit, wait) v
    ]
  ]

  sweep_rule : (n i : ℕ) (s : Shared) (b : Bool) → P s → P (sweep n i s b).0
  unfolding sweep
  sweep_rule zero i s b v = v
  sweep_rule (suc n) i s b v =
      sweep_rule n (suc i) (visit i s b).0 (visit i s b).1 (visit_rule i s b v)

  satisfy_rule : (fuel : ℕ) (s : Shared) → P s → P (satisfy fuel s)
  unfolding satisfy
  satisfy_rule zero s v = v
  satisfy_rule (suc fuel) s v =
      let next = sweep_rule (length s.procs) 0 s false v in
      elim (Bool-cases (sweep (length s.procs) 0 s false).1) [
        | inl more ↦
            rw (more, satisfy) (satisfy_rule fuel (sweep (length s.procs) 0 s false).0 next)
        | inr last ↦ rw (last, satisfy) next
      ]

  -- A property that every waking keeps holds after the loop.
  pub try_satisfy_rule : (s : Shared) → P s → P (try_satisfy_waiting s)
  unfolding try_satisfy_waiting
  try_satisfy_rule s v = satisfy_rule (suc (length s.procs)) s v

pub try_satisfy_waiting-Inv : (s : Shared) → Inv s → Inv (try_satisfy_waiting s)
try_satisfy_waiting-Inv = try_satisfy_rule Inv wake-Inv
