-- ===== src/Rsm/Frame.antt =====
-- What no call of Project3/rsm.c changes: what exists of each resource type, and how many types there
-- are.
use bilkent_os_projects.Base.{◌≡◌, some, true, get_elem?, ℕ, Option-cases, inl, inr, arith, ℤ}
use bilkent_os_projects.Rsm.Reduce.{Vec}
use bilkent_os_projects.Rsm.State.{Proc, Shared}
use bilkent_os_projects.Rsm.Process.{
  Local, Os, IntArray, row, map_existing_state, current_apid_locked,
}
use bilkent_os_projects.Rsm.Bank.{grantable, wake, try_satisfy_waiting}
use bilkent_os_projects.Rsm.Api.{
  slot, own_slot, rsm_process_started, rsm_process_ended, rsm_claim, end_slot, index,
}
use bilkent_os_projects.Rsm.Request.{
  grant_or_wait, rsm_request, resume, release_slot, rsm_release, rsm_detection,
}
use bilkent_os_projects.Rsm.Inv.Bank.{try_satisfy_rule}
use bilkent_os_projects.Rsm.Reach.{
  Call, starts, ends, claims, requests, releases, detects, resumes, after,
}

-- The state has the resource types of r and of these what `existing` says.
abbrev pub HasResources : ℕ → Vec → Shared → Type 0
HasResources r existing s = (s.resource_count ≡ r) × (s.existing ≡ existing)

module _ (r : ℕ) (existing : Vec) where
  woken-HasResources :
      (s : Shared) (i : ℕ) (p : Proc)
      → get_elem? s.procs i ≡ some p
      → grantable s i p ≡ true
      → HasResources r existing s
      → HasResources r existing (wake s i p)
  unfolding wake
  woken-HasResources s i p g h has = has

  satisfied-HasResources :
      (s : Shared) → HasResources r existing s → HasResources r existing (try_satisfy_waiting s)
  satisfied-HasResources = try_satisfy_rule (HasResources r existing) woken-HasResources

  module _ (os : Os) (l : Local) (s : Shared) (has : HasResources r existing s) where
    rsm_process_started-HasResources :
        (apid : ℤ) → HasResources r existing (rsm_process_started os l s apid).state
    unfolding rsm_process_started
    rsm_process_started-HasResources apid = elim (Option-cases (slot s apid)) [
      | inl empty ↦ rw empty (ground arith)
      | inr (p, g) ↦ rw g (ground arith)
    ]

    rsm_process_ended-HasResources : HasResources r existing (rsm_process_ended os l s).state
    unfolding rsm_process_ended end_slot
    rsm_process_ended-HasResources =
        let apid = (current_apid_locked s (map_existing_state os l).1).0 in
        elim (Option-cases (own_slot s apid)) [
          | inl empty ↦ rw empty (ground arith)
          | inr (p, g) ↦
              rw g (ground (arith, satisfied-HasResources (end_slot s (index apid) p) has))
        ]

    rsm_claim-HasResources :
        (claim : IntArray) → HasResources r existing (rsm_claim os l s claim).state
    unfolding rsm_claim
    rsm_claim-HasResources claim =
        let apid = (current_apid_locked s (map_existing_state os l).1).0 in
        elim (Option-cases (own_slot s apid)) [
          | inl empty ↦ rw empty (ground arith)
          | inr (p, g) ↦ rw g (ground arith)
        ]

    rsm_release-HasResources :
        (release : IntArray) → HasResources r existing (rsm_release os l s release).state
    unfolding rsm_release release_slot
    rsm_release-HasResources release =
        let apid = (current_apid_locked s (map_existing_state os l).1).0 in
        elim (Option-cases (own_slot s apid)) [
          | inl empty ↦ rw empty (ground arith)
          | inr (p, g) ↦ rw g (
              ground
                (arith, satisfied-HasResources (release_slot s (index apid) (row release) p) has))
        ]

    rsm_request-HasResources :
        (request : IntArray) → HasResources r existing (rsm_request os l s request).state
    unfolding rsm_request grant_or_wait
    rsm_request-HasResources request =
        let apid = (current_apid_locked s (map_existing_state os l).1).0 in
        elim (Option-cases (own_slot s apid)) [
          | inl empty ↦ rw empty (ground arith)
          | inr (p, g) ↦ rw g (ground arith)
        ]

    pub after-HasResources : (c : Call) → HasResources r existing (after os l s c)
    unfolding rsm_detection resume
    after-HasResources (starts apid) = rsm_process_started-HasResources apid
    after-HasResources ends = rsm_process_ended-HasResources
    after-HasResources (claims c) = rsm_claim-HasResources c
    after-HasResources (requests q) = rsm_request-HasResources q
    after-HasResources (releases q) = rsm_release-HasResources q
    after-HasResources detects = ground arith
    after-HasResources (resumes waits a) = elim (Option-cases (get_elem? s.procs a)) [
      | inl empty ↦ rw (after, empty) (ground arith)
      | inr (p, g) ↦ rw (after, g) (ground arith)
    ]
