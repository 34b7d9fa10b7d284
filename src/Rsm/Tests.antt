-- ===== src/Rsm/Tests.antt =====
-- The scenario of Project3/myapp.c on two processes and two resource types, and the theorems at it.
use bilkent_os_projects.Base.{
  ℕ, List, ◌≤◌, ◌≢◌, ◌≡◌, refl, Bool, true, false, Option, none, some, ◌↔◌, get_elem?, set, ◌==◌,
  if◌then◌else◌, all_below, pos, ℤ, arith,
}
use bilkent_os_projects.Rsm.Reduce.{Job, Vec, fits, ready, round, reduce, all_finished, unfinished}
use bilkent_os_projects.Rsm.State.{Proc, Shared}
use bilkent_os_projects.Rsm.Process.{
  Local, Os, IntArray, map_existing_state, lock_state, validate_vector_bounds, find_pid, row,
  current_apid_locked,
}
use bilkent_os_projects.Rsm.Bank.{
  safe_jobs, is_safe, grant_proc, take_row, grantable, wake, visit, sweep, satisfy,
  try_satisfy_waiting,
}
use bilkent_os_projects.Rsm.Api.{
  returns, sleeps, rsm_process_started, rsm_process_ended, rsm_claim, end_slot,
}
use bilkent_os_projects.Rsm.Request.{
  grant_or_wait, asks, rsm_request, resume, rsm_release, release_slot, request_jobs, deadlocked,
  rsm_detection,
}
use bilkent_os_projects.Rsm.Init.{InitOs, rsm_init, fresh, free_slot}
use bilkent_os_projects.Rsm.Reach.{
  Reachable, Follows, made, next, here, call, after, starts, claims, requests, ends, Reachable-Inv,
}
use bilkent_os_projects.Rsm.Avoid.{avoidance_leaves_no_deadlock}
use bilkent_os_projects.Rsm.Inv.{Inv, IsSafe}
use bilkent_os_projects.Rsm.Inv.Safety.{is_safe_iff}
use bilkent_os_projects.Rsm.Reduce.Step.{Fits, Reduces}
use bilkent_os_projects.Rsm.Deadlock.{deadlocked_least}
use bilkent_os_projects.Rsm.Inv.Quiet.{Quiescent, try_satisfy_waiting-Quiescent}
use bilkent_os_projects.Rsm.Bounds.{Bounded, numbers_within_existing}
use bilkent_os_projects.Rsm.Answers.{
  Admitted, IsOpen, Found, granted, waiting_in, current_apid_locked-Found, rsm_release-Quiescent,
  rsm_process_ended-Quiescent, rsm_request_iff,
}

abbrev os : Os
os = record { opens = true; maps = true; locks = true }

abbrev init_os : InitOs
init_os = record {
  creates = true;
  truncates = true;
  maps = true;
  mutex_inits = true;
  sem_inits = λ i. true;
}

abbrev process : ℕ → Local
process pid = record { pid = pid; mapped = true; fd_open = true; apid = none }

-- One instance of one resource type, or of each of the first two.
abbrev only : ℕ → IntArray
only j = some (λ i. if i == j then pos 1 else pos 0)

abbrev both : IntArray
both = some (λ i. pos 1)

abbrev start : Bool → Shared
start avoid = fresh 2 2 both avoid

abbrev registered : Bool → Shared
registered avoid =
    after os (process 11) (after os (process 10) (start avoid) (starts (pos 0))) (starts (pos 1))

abbrev claimed : Bool → Shared
claimed avoid =
    after os (process 11) (after os (process 10) (registered avoid) (claims both)) (claims both)

abbrev slot_or_free : ℕ → Shared → Proc
slot_or_free i s = elim (get_elem? s.procs i) [ none ↦ free_slot | some p ↦ p ]

-- P0 holds R0.
abbrev one_holds : Bool → Shared
one_holds avoid = after os (process 10) (claimed avoid) (requests (only 0))

abbrev run_all : ℕ
unfolding fits ready round reduce all_finished unfinished map_existing_state lock_state
    validate_vector_bounds find_pid current_apid_locked safe_jobs is_safe grantable wake visit sweep
    satisfy try_satisfy_waiting rsm_process_started rsm_process_ended rsm_claim end_slot
    grant_or_wait rsm_request resume rsm_release release_slot deadlocked rsm_detection rsm_init
    all_below
run_all = 0

-- With avoidance P1 has to wait for R1, which is free; without it P1 gets R1.
waits_when_unsafe :
    ((rsm_request os (process 11) (one_holds true) (only 1)).reply ≡ sleeps 1)
    × ((rsm_request os (process 11) (one_holds false) (only 1)).reply ≡ returns (pos 0))
unfolding run_all
waits_when_unsafe = (refl, refl)

-- Without avoidance each then waits for what the other holds, and both are counted.
abbrev crossed : Bool → Shared
crossed avoid =
    after os (process 11)
      (after os (process 10) (after os (process 11) (one_holds avoid) (requests (only 1)))
        (requests (only 1)))
      (requests (only 0))

deadlock_counted : (deadlocked (crossed false) ≡ 2) × (deadlocked (crossed true) ≡ 0)
unfolding run_all
deadlock_counted = (refl, refl)

abbrev woke : Option (ℤ × Shared) → Bool
woke none = false
woke (some r) = true

-- P1, which waits in the unsafe state, can go on once P0 has ended, and not before.
abbrev held_up : Shared
held_up = after os (process 11) (one_holds true) (requests (only 1))

woken_at_the_end :
    (woke (resume true held_up 1) ≡ false)
    × (woke (resume true (after os (process 10) held_up ends) 1) ≡ true)
unfolding run_all
woken_at_the_end = (refl, refl)

one_holds-Reachable : (avoid : Bool) → Reachable (one_holds avoid)
unfolding run_all
one_holds-Reachable true =
    next
      (next
        (next
          (next
            (next (made init_os (process 1) (pos 2) (pos 2) both (pos 1) refl) os (process 10)
              (starts (pos 0)) refl)
            os (process 11) (starts (pos 1)) refl)
          os (process 10) (claims both) refl)
        os (process 11) (claims both) refl)
      os (process 10) (requests (only 0)) refl
one_holds-Reachable false =
    next
      (next
        (next
          (next
            (next (made init_os (process 1) (pos 2) (pos 2) both (pos 0) refl) os (process 10)
              (starts (pos 0)) refl)
            os (process 11) (starts (pos 1)) refl)
          os (process 10) (claims both) refl)
        os (process 11) (claims both) refl)
      os (process 10) (requests (only 0)) refl

held_up-Reachable : Reachable held_up
held_up-Reachable = next (one_holds-Reachable true) os (process 11) (requests (only 1)) refl

-- Slot 1, whose request waits.
abbrev waits_in : Proc
waits_in = slot_or_free 1 held_up

held_up-Follows : Follows (start true) held_up
held_up-Follows =
    call
      (call
        (call
          (call
            (call (call here os (process 10) (starts (pos 0)) refl) os (process 11) (starts (pos 1))
              refl)
            os (process 10) (claims both) refl)
          os (process 11) (claims both) refl)
        os (process 10) (requests (only 0)) refl)
      os (process 11) (requests (only 1)) refl

one_holds-IsOpen : IsOpen (one_holds true)
unfolding run_all
one_holds-IsOpen = record {
  complete = one_holds true;
  reached = one_holds-Reachable true;
  all_there = ((refl, λ on. refl), ((refl, λ on. refl), tt));
  later = here;
}

avoidance_leaves_no_deadlock_example :
    (rsm_detection os (process 1) held_up).reply ≡ returns (pos 0)
unfolding run_all
avoidance_leaves_no_deadlock_example =
    avoidance_leaves_no_deadlock os (process 1) held_up held_up-Reachable refl refl refl

Reachable-Inv_example : Inv held_up
Reachable-Inv_example = Reachable-Inv held_up held_up-Reachable

-- Slot 0 of the state in which P0 holds R0.
abbrev p0 : Proc
p0 = slot_or_free 0 (one_holds true)

abbrev p1 : Proc
p1 = slot_or_free 1 (one_holds true)

is_safe_iff_example : (is_safe (one_holds true) 0 (row (only 1)) ≡ true) ↔ (
    Fits 2 (row (only 1)) (one_holds true).available
    × IsSafe (record (one_holds true) {
      available = take_row (one_holds true) (row (only 1));
      procs = set (one_holds true).procs 0 (grant_proc (one_holds true) (row (only 1)) p0);
    }))
unfolding run_all
is_safe_iff_example = is_safe_iff (one_holds true) 0 (row (only 1)) p0 refl refl

deadlocked_least_example :
    ((ks : List Job) (v : Vec)
      → Reduces 2 (request_jobs 2 (crossed false).procs) (crossed false).available ks v
      → deadlocked (crossed false) ≤ unfinished ks)
    × ((ks : List Job) × (v : Vec) × Reduces 2
          (request_jobs 2 (crossed false).procs)
          (crossed false).available
          ks
          v
        × (unfinished ks ≡ deadlocked (crossed false)))
unfolding run_all
deadlocked_least_example = deadlocked_least (crossed false)

p1_asks : Admitted os (process 11) (one_holds true) (only 1) 1 p1
unfolding run_all
p1_asks = record {
  mapped = refl;
  valid = refl;
  locked = refl;
  mine = refl;
  slot = refl;
  runs = refl;
  lawful = refl;
  opened = one_holds-IsOpen;
}

rsm_request_iff_example :
    (((rsm_request os (process 11) (one_holds true) (only 1)).reply ≡ returns (pos 0)) ↔ (
      Fits 2 (row (only 1)) (one_holds true).available
      × ((one_holds true).avoid_enabled ≡ true
          → IsSafe (granted (one_holds true) 1 (row (only 1)) p1))))
    × ((rsm_request os (process 11) (one_holds true) (only 1)).reply ≡ returns (pos 0)
        → held_up
          ≡ granted (one_holds true) 1 (row (only 1)) (asks (one_holds true) (row (only 1)) p1))
    × ((rsm_request os (process 11) (one_holds true) (only 1)).reply ≢ returns (pos 0)
        → ((rsm_request os (process 11) (one_holds true) (only 1)).reply ≡ sleeps 1)
          × (held_up ≡ waiting_in (one_holds true) 1 (row (only 1)) p1))
    × (held_up.avoid_enabled ≡ true → IsSafe held_up)
unfolding run_all
rsm_request_iff_example = rsm_request_iff os (process 11) (one_holds true) (only 1) 1 p1 p1_asks

try_satisfy_waiting-Quiescent_example : Quiescent (try_satisfy_waiting held_up)
try_satisfy_waiting-Quiescent_example = try_satisfy_waiting-Quiescent held_up

rsm_process_ended-Quiescent_example : Quiescent (rsm_process_ended os (process 10) held_up).state
unfolding run_all
rsm_process_ended-Quiescent_example = rsm_process_ended-Quiescent os (process 10) held_up refl

rsm_release-Quiescent_example : Quiescent (rsm_release os (process 10) held_up (only 0)).state
unfolding run_all
rsm_release-Quiescent_example = rsm_release-Quiescent os (process 10) held_up (only 0) refl

current_apid_locked-Found_example :
    Found 11 held_up.procs (current_apid_locked held_up (process 11)).0
    × ((i : ℕ)
        → (current_apid_locked held_up (process 11)).0 ≡ some i
        → (current_apid_locked held_up (process 11)).1.apid ≡ some i)
unfolding run_all
current_apid_locked-Found_example = current_apid_locked-Found held_up (process 11)

numbers_within_existing_example : Bounded 1 held_up waits_in 0
unfolding run_all
numbers_within_existing_example =
    numbers_within_existing init_os (process 1) (pos 2) (pos 2) both (pos 1) (start true) held_up 1
      waits_in 0 refl held_up-Follows refl (omega arith)
