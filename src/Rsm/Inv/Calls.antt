-- ===== src/Rsm/Inv/Calls.antt =====
-- Every call of Project3/rsm.c keeps the invariant.
use bilkent_os_projects.Base.{
  ℕ, ◌≡◌, refl, subst, Bool, true, ◌-◌, ◌==◌, Option, none, some, get_elem?, set-set_self,
  get_elem?-set_self, get_elem?-lt, Bool-cases, Option-cases, inl, inr, arith, pos, negsuc, ℤ,
}
use bilkent_os_projects.Rsm.Reduce.{Vec}
use bilkent_os_projects.Rsm.Reduce.Step.{Fits, fits-Fits}
use bilkent_os_projects.Rsm.State.{Proc, Shared}
use bilkent_os_projects.Rsm.Process.{
  Local, Os, IntArray, map_existing_state, row, current_apid_locked,
}
use bilkent_os_projects.Rsm.Bank.{grant_proc, take_row}
use bilkent_os_projects.Rsm.Api.{
  slot, slot_index, own_slot, index, rsm_process_started, rsm_process_ended, rsm_claim, end_slot,
}
use bilkent_os_projects.Rsm.Request.{
  asks, may_ask, asking, grant_now, grant_or_wait, rsm_request, resume, release_slot, rsm_release,
}
use bilkent_os_projects.Rsm.Inv.{Inv}
use bilkent_os_projects.Rsm.Inv.Rows.{granted-Ok, waiting-Ok, sem-Ok}
use bilkent_os_projects.Rsm.Inv.Safety.{is_safe_iff}
use bilkent_os_projects.Rsm.Inv.Slots.{
  slot-Ok, put-Inv, same-Inv, registered-Inv, ended-Inv, claims-Inv, gives-Inv,
}
use bilkent_os_projects.Rsm.Inv.Bank.{try_satisfy_waiting-Inv}

slot-get :
    (s : Shared) (z : ℤ) (p : Proc) → slot s z ≡ some p → get_elem? s.procs (slot_index z) ≡ some p
slot-get s (pos a) p g = g
slot-get s (negsuc a) p g = cc

pub own_slot-get :
    (s : Shared) (o : Option ℕ) (p : Proc)
    → own_slot s o ≡ some p
    → get_elem? s.procs (index o) ≡ some p
own_slot-get s none p g = cc
own_slot-get s (some a) p g = g

may_ask-Fits :
    (s : Shared) (req : Vec) (p : Proc)
    → may_ask s req p ≡ true
    → Fits s.resource_count req s.existing
      × (s.avoid_enabled ≡ true → Fits s.resource_count req p.need)
may_ask-Fits s req p h = (
  fits-Fits s.resource_count req s.existing (ground arith),
  λ on. fits-Fits s.resource_count req p.need (ground arith),
)

module _ (os : Os) (l : Local) (s : Shared) (v : Inv s) where
  pub rsm_process_started-Inv : (apid : ℤ) → Inv (rsm_process_started os l s apid).state
  unfolding rsm_process_started
  rsm_process_started-Inv apid = elim (Option-cases (slot s apid)) [
    | inl empty ↦ rw empty (ground arith)
    | inr (p, g) ↦ rw g (elim (Bool-cases p.started) [
      | inl taken ↦ ground arith
      | inr free ↦ ground (
        arith,
        registered-Inv s v (slot_index apid) p (slot-get s apid p g) (map_existing_state os l).1.pid
            free,
      )
    ])
  ]

  pub rsm_process_ended-Inv : Inv (rsm_process_ended os l s).state
  unfolding rsm_process_ended end_slot
  rsm_process_ended-Inv =
      let l₁ = (map_existing_state os l).1 in
      let apid = (current_apid_locked s l₁).0 in
      elim (Option-cases (own_slot s apid)) [
        | inl empty ↦ rw empty (ground arith)
        | inr (p, g) ↦ rw g (elim (Bool-cases p.active) [
          | inl act ↦ ground (
            arith,
            try_satisfy_waiting-Inv _ (ended-Inv s v (index apid) p (own_slot-get s apid p g) act),
          )
          | inr off ↦ ground arith
        ])
      ]

  pub rsm_claim-Inv : (claim : IntArray) → Inv (rsm_claim os l s claim).state
  unfolding rsm_claim
  rsm_claim-Inv claim =
      let apid = (current_apid_locked s (map_existing_state os l).1).0 in
      elim (Option-cases (own_slot s apid)) [
        | inl empty ↦ rw empty (ground arith)
        | inr (p, g) ↦ rw g (
            ground (
              arith,
              fits-Fits s.resource_count (row claim) s.existing,
              claims-Inv s v (index apid) p (own_slot-get s apid p g) (row claim),
            ))
      ]

  pub rsm_release-Inv : (release : IntArray) → Inv (rsm_release os l s release).state
  unfolding rsm_release release_slot
  rsm_release-Inv release =
      let apid = (current_apid_locked s (map_existing_state os l).1).0 in
      elim (Option-cases (own_slot s apid)) [
        | inl empty ↦ rw empty (ground arith)
        | inr (p, g) ↦ rw g (
            ground (
              arith,
              fits-Fits s.resource_count (row release) p.allocation,
              gives-Inv s v (index apid) p (own_slot-get s apid p g) (row release),
              try_satisfy_waiting-Inv (release_slot s (index apid) (row release) p),
            ))
      ]

  -- The request is entered in slot a, and then granted or left to wait.
  grant_or_wait-Inv :
      (l' : Local) (a : ℕ) (req : Vec) (p : Proc)
      → get_elem? s.procs a ≡ some p
      → p.active ≡ true
      → Fits s.resource_count req s.existing
      → (s.avoid_enabled ≡ true → Fits s.resource_count req p.need)
      → Inv (grant_or_wait l' (asking s a req p) a req (asks s req p)).state
  unfolding grant_or_wait
  grant_or_wait-Inv l' a req p g act small fit =
      let ok = slot-Ok s v a p g in
      let entered = get_elem?-set_self s.procs a (asks s req p) (get_elem?-lt s.procs a g) in
      elim (Bool-cases (grant_now (asking s a req p) a req)) [
        | inl go ↦
            let enough = fits-Fits s.resource_count req s.available (ground arith) in
            rw (go, set-set_self)
              (put-Inv s v a p g (take_row s req) (grant_proc s req (asks s req p))
                (granted-Ok s p ok req act fit) (λ j lt. ground (arith, enough j lt))
                (λ on.
                  rw set-set_self at
                    ((is_safe_iff (asking s a req p) a req (asks s req p) entered on).0
                      (ground arith)).1))
        | inr wait ↦
            rw (wait, set-set_self)
              (same-Inv s v a p g (record (asks s req p) { waiting = true })
                (waiting-Ok s p ok req act small fit) refl refl refl)
      ]

  pub rsm_request-Inv : (request : IntArray) → Inv (rsm_request os l s request).state
  unfolding rsm_request
  rsm_request-Inv request =
      let req = row request in
      let l' = (current_apid_locked s (map_existing_state os l).1).1 in
      let apid = (current_apid_locked s (map_existing_state os l).1).0 in
      elim (Option-cases (own_slot s apid)) [
        | inl empty ↦ rw empty (ground arith)
        | inr (p, g) ↦ rw g (elim (Bool-cases (may_ask s req p)) [
          | inl may ↦
              let (small, fit) = may_ask-Fits s req p may in
              ground (
                arith,
                λ (act : p.active ≡ true).
                    grant_or_wait-Inv l' (index apid) req p (own_slot-get s apid p g) act small fit,
              )
          | inr may_not ↦ ground arith
        ])
      ]

  pub resume-Inv :
      (waits : Bool) (a : ℕ) (z : ℤ) (s' : Shared) → resume waits s a ≡ some (z, s') → Inv s'
  unfolding resume
  resume-Inv waits a z s' h = elim (Option-cases (get_elem? s.procs a)) [
    | inl empty ↦ absurd (cc (rw (empty, resume) at h))
    | inr (p, g) ↦
        let same =
          same-Inv s v a p g (record p { sem = p.sem - 1 })
            (sem-Ok s p (slot-Ok s v a p g) (p.sem - 1)) refl refl refl in
        let h' = rw (g, resume) at h in
        elim (Bool-cases waits) [
          | inl on ↦ elim (Bool-cases (p.sem == 0)) [
            | inl zero_yet ↦ absurd (cc (rw (on, zero_yet) at h'))
            | inr free ↦ subst Inv (ground (arith, rw (on, free) at h')) same
          ]
          | inr off ↦ subst Inv (ground (arith, rw off at h')) v
        ]
  ]
