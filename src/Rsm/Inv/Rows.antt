-- ===== src/Rsm/Inv/Rows.antt =====
-- What the calls of Project3/rsm.c write to a slot keeps its entries in order.
use bilkent_os_projects.Base.{ℕ, ◌≡◌, refl, true, false, inl, inr, Bool-cases, arith}
use bilkent_os_projects.Rsm.Reduce.{Vec}
use bilkent_os_projects.Rsm.Reduce.Step.{Fits}
use bilkent_os_projects.Rsm.State.{Proc, Shared}
use bilkent_os_projects.Rsm.Bank.{grant_proc, woken}
use bilkent_os_projects.Rsm.Api.{registered, ended, claims}
use bilkent_os_projects.Rsm.Request.{asks, gives}
use bilkent_os_projects.Rsm.Inv.{ProcOk}

abbrev pub Ok : Shared → Proc → Type 0
Ok s = ProcOk s.avoid_enabled s.resource_count s.existing

module _ (s : Shared) (p : Proc) (v : Ok s p) where
  pub registered-Ok : (pid : ℕ) → p.started ≡ false → Ok s (registered s pid p)
  registered-Ok pid idle = record {
    live = refl;
    rows = λ j lt. ground (arith, v.live, v.rows j lt);
  }

  pub ended-Ok : Ok s (ended s p)
  ended-Ok = record { live = refl; rows = λ j lt. ground (arith, v.rows j lt) }

  pub claims-Ok :
      (claim : Vec)
      → p.started ≡ true
      → s.avoid_enabled ≡ true
      → p.claimed ≡ false
      → Fits s.resource_count claim s.existing
      → Ok s (claims s claim p)
  claims-Ok claim st on fresh fit = record {
    live = v.live;
    rows = λ j lt. ground (arith, v.live, v.rows j lt, fit j lt);
  }

  pub gives-Ok :
      (rel : Vec) → p.active ≡ true → Fits s.resource_count rel p.allocation → Ok s (gives s rel p)
  gives-Ok rel act fit = record {
    live = v.live;
    rows = λ j lt. ground (arith, v.rows j lt, fit j lt);
  }

  -- A grant of a row within the need, whether it has been entered as a request or not.
  pub grant-Ok :
      (req : Vec)
      → p.active ≡ true
      → (s.avoid_enabled ≡ true → Fits s.resource_count req p.need)
      → Ok s (grant_proc s req p)
  grant-Ok req act fit = record {
    live = v.live;
    rows = λ j lt. elim (Bool-cases s.avoid_enabled) [
      | inl on ↦ ground (arith, v.rows j lt, fit on j lt)
      | inr off ↦ ground (arith, v.rows j lt)
    ];
  }

  pub woken-Ok : p.active ≡ true → Ok s (woken (grant_proc s p.request p))
  woken-Ok act = record { live = v.live; rows = λ j lt. ground (arith, v.rows j lt) }

  pub waiting-Ok :
      (req : Vec)
      → p.active ≡ true
      → Fits s.resource_count req s.existing
      → (s.avoid_enabled ≡ true → Fits s.resource_count req p.need)
      → Ok s (record (asks s req p) { waiting = true })
  waiting-Ok req act small fit = record {
    live = v.live;
    rows = λ j lt. elim (Bool-cases s.avoid_enabled) [
      | inl on ↦ ground (arith, v.rows j lt, small j lt, fit on j lt)
      | inr off ↦ ground (arith, v.rows j lt, small j lt)
    ];
  }

  pub granted-Ok :
      (req : Vec)
      → p.active ≡ true
      → (s.avoid_enabled ≡ true → Fits s.resource_count req p.need)
      → Ok s (grant_proc s req (asks s req p))
  granted-Ok req act fit = record {
    live = v.live;
    rows = λ j lt. elim (Bool-cases s.avoid_enabled) [
      | inl on ↦ ground (arith, v.rows j lt, fit on j lt)
      | inr off ↦ ground (arith, v.rows j lt)
    ];
  }

  pub sem-Ok : (n : ℕ) → Ok s (record p { sem = n })
  sem-Ok n = record { live = v.live; rows = λ j lt. ground (arith, v.rows j lt) }
