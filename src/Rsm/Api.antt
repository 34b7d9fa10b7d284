-- ===== src/Rsm/Api.antt =====
-- The library calls of Project3/rsm.c that a registered process makes (lines 341-570). A call
-- returns its value, what the process keeps, and the shared state.
use bilkent_os_projects.Base.{
  ℕ, ◌+◌, true, false, not, ◌||◌, Option, none, some, get_elem?, set, if◌then◌else◌, ℤ, pos, negsuc,
  minus_one,
}
use bilkent_os_projects.Rsm.Reduce.{Vec, fits}
use bilkent_os_projects.Rsm.State.{Proc, Shared, for_row}
use bilkent_os_projects.Rsm.Process.{
  Local, Os, IntArray, map_existing_state, lock_state, validate_vector_bounds, row,
  current_apid_locked,
}
use bilkent_os_projects.Rsm.Bank.{try_satisfy_waiting}

-- `returns r`, or blocked in `sem_wait(&process_sem[apid])`.
pub data Reply : Type 0 where
  returns : ℤ → Reply
  sleeps : ℕ → Reply

pub record Outcome : Type 0 where
  pub reply : Reply
  pub local : Local
  pub state : Shared

abbrev pub fail : Local → Shared → Outcome
fail l s = record { reply = returns minus_one; local = l; state = s }

abbrev pub succeed : Local → Shared → Outcome
succeed l s = record { reply = returns (pos 0); local = l; state = s }

-- Lines 354-361.
abbrev pub registered : Shared → ℕ → Proc → Proc
registered s pid p = record p {
  pid = some pid;
  started = true;
  active = true;
  claimed = false;
  requested_once = false;
  waiting = false;
  request = for_row s.resource_count (λ j. 0) p.request;
}

-- A negative apid, and one that is not below `process_count`, is no slot.
abbrev pub slot : Shared → ℤ → Option Proc
slot s (pos a) = get_elem? s.procs a
slot s (negsuc a) = none

abbrev pub slot_index : ℤ → ℕ
slot_index (pos a) = a
slot_index (negsuc a) = 0

unfoldable pub rsm_process_started : Os → Local → Shared → ℤ → Outcome
rsm_process_started os l₀ s apid =
    let (mapped, l) = map_existing_state os l₀ in
    if not mapped then fail l s else elim (slot s apid) [
      | none ↦ fail l s
      | some p ↦
          if not (lock_state os l)
          then fail l s
          else if not s.initialized || p.started
          then fail l s
          else succeed (record l { apid = some (slot_index apid) })
              (record s { procs = set s.procs (slot_index apid) (registered s l.pid p) })
    ]

-- Lines 384-397.
abbrev pub ended : Shared → Proc → Proc
ended s p = record p {
  allocation = for_row s.resource_count (λ j. 0) p.allocation;
  request = for_row s.resource_count (λ j. 0) p.request;
  max_demand = for_row s.resource_count (λ j. 0) p.max_demand;
  need = for_row s.resource_count (λ j. 0) p.need;
  waiting = false;
  pid = none;
  started = false;
  active = false;
  claimed = false;
  requested_once = false;
}

abbrev pub give_row : Shared → Vec → Vec
give_row s u = for_row s.resource_count (λ j. s.available j + u j) s.available

-- The slot of the caller, under the lock.
abbrev pub own_slot : Shared → Option ℕ → Option Proc
own_slot s none = none
own_slot s (some a) = get_elem? s.procs a

abbrev pub index : Option ℕ → ℕ
index none = 0
index (some a) = a

unfoldable pub end_slot : Shared → ℕ → Proc → Shared
end_slot s a p = record s { available = give_row s p.allocation; procs = set s.procs a (ended s p) }

unfoldable pub rsm_process_ended : Os → Local → Shared → Outcome
rsm_process_ended os l₀ s =
    let (mapped, l₁) = map_existing_state os l₀ in
    if not mapped || not (lock_state os l₁)
    then fail l₁ s
    else let (apid, l) = current_apid_locked s l₁ in
      elim (own_slot s apid) [
        | none ↦ fail l s
        | some p ↦
            if not p.active
            then fail l s
            else succeed (record l { apid = none })
                (try_satisfy_waiting (end_slot s (index apid) p))
      ]

-- Lines 440-444.
abbrev pub claims : Shared → Vec → Proc → Proc
claims s claim p = record p {
  max_demand = for_row s.resource_count claim p.max_demand;
  need = for_row s.resource_count claim p.need;
  claimed = true;
}

unfoldable pub rsm_claim : Os → Local → Shared → IntArray → Outcome
rsm_claim os l₀ s claim =
    let (mapped, l₁) = map_existing_state os l₀ in
    if not mapped || not (validate_vector_bounds claim s.resource_count) || not (lock_state os l₁)
    then fail l₁ s
    else let (apid, l) = current_apid_locked s l₁ in
      elim (own_slot s apid) [
        | none ↦ fail l s
        | some p ↦
            if not p.started
            then fail l s
            else if not s.avoid_enabled
            then succeed l s
            else if p.claimed || p.requested_once
            then fail l s
            else if not (fits s.resource_count (row claim) s.existing)
            then fail l s
            else succeed l (record s { procs = set s.procs (index apid) (claims s (row claim) p) })
      ]
