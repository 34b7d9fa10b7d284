-- ===== src/Tus/Tests.antt =====
-- A run of the main thread and a second one, as in Project2/test_basic.c, and the theorems at it.
use bilkent_os_projects.Base.{
  ℕ, ◌+◌, ◌<◌, ◌≡◌, refl, true, false, ◌⊎◌, none, some, [], ◌∷◌, ◌++◌, replicate, set, pos,
  minus_one, arith,
}
use bilkent_os_projects.Tus.Queue.{
  Ring, fcfs, random, rq_init, rq_push, rq_pop, rq_remove_tid, pick_at, pick_next_tid_by_sched,
}
use bilkent_os_projects.Tus.Queue.Contents.{contents, IsValid}
use bilkent_os_projects.Tus.Queue.Refine.{Holds}
use bilkent_os_projects.Tus.Queue.Remove.{chosen, rq_remove_tid_lem, pick_next_tid_by_sched_lem}
use bilkent_os_projects.Tus.State.{
  Tus, Found, ended, get_tcb_by_tid, find_slot_by_tid, find_free_slot, count_existing_threads,
  allocate_from, allocate_tid,
}
use bilkent_os_projects.Tus.Yield.{switch_to, yield_any, yield_from, tus_yield, arrive, tus_exit}
use bilkent_os_projects.Tus.Api.{
  tus_init, tus_create_thread, tus_cancel, join_check, joined, yields, is_ended,
}
use bilkent_os_projects.Tus.Inv.{tally, ready_tid, Inv}
use bilkent_os_projects.Tus.Inv.Switch.{HandsOver}
use bilkent_os_projects.Tus.Inv.Call.{Good, tus_yield_any}
use bilkent_os_projects.Tus.Inv.Answer.{Stays, tus_yield_ready, tus_yield_refused}
use bilkent_os_projects.Tus.Inv.Arrive.{arrive-Good}
use bilkent_os_projects.Tus.Inv.Exit.{tus_exit_next}
use bilkent_os_projects.Tus.Inv.Cancel.{tus_cancel_ready}
use bilkent_os_projects.Tus.Inv.Join.{Joined, join_check_cases}
use bilkent_os_projects.Tus.Inv.Create.{Created, tus_create_thread_lem}
use bilkent_os_projects.Tus.Inv.Init.{Started, tus_init_lem}
use bilkent_os_projects.Tus.Reach.{Reachable-Healthy}
use bilkent_os_projects.Tus.Run.{yields_to, creates, cancels, Reachable, starts, goes_on, Healthy}

-- Before the library is started.
abbrev before : Tus
before = record {
  threads = replicate 64 none;
  current_tid = none;
  initialized = false;
  sched_alg = fcfs;
  queue = record { ready_q = replicate 64 0; head = 0; tail = 0; size = 0 };
}

abbrev begun : Tus
begun = (tus_init true true before (pos 1)).1

abbrev two : Tus
two = (tus_create_thread true true true begun).1

-- The second thread is cancelled, or runs.
abbrev one_left : Tus
one_left = (tus_cancel two (pos 2)).1

abbrev swapped : Tus
swapped = (tus_yield true 7 two (pos 0)).1

begun-Reachable : Reachable begun
begun-Reachable = starts before (pos 1) fcfs refl refl refl

two-Reachable : Reachable two
two-Reachable = goes_on begun-Reachable (creates true true true)

swapped-Reachable : Reachable (arrive swapped 2)
unfolding tus_init find_free_slot rq_init tus_create_thread count_existing_threads allocate_tid
    allocate_from get_tcb_by_tid find_slot_by_tid rq_push tus_yield yield_from yield_any switch_to
    pick_next_tid_by_sched rq_pop
swapped-Reachable = goes_on two-Reachable (yields_to true 7 (pos 0) 2 swapped refl)

begun-Good : Good begun
begun-Good = (Reachable-Healthy begun begun-Reachable).good

same_tid : {m n : ℕ} → pos m ≡ pos n → m ≡ n
same_tid {m} {n} e = cc e

two-Good : Good two
two-Good = (Reachable-Healthy two two-Reachable).good

Reachable-Healthy_example : Healthy (arrive swapped 2)
Reachable-Healthy_example = Reachable-Healthy (arrive swapped 2) swapped-Reachable

two_started : two.initialized ≡ true
unfolding tus_init find_free_slot rq_init tus_create_thread count_existing_threads allocate_tid
    allocate_from get_tcb_by_tid find_slot_by_tid rq_push
two_started = refl

two_current : two.current_tid ≡ some 1
unfolding tus_init find_free_slot rq_init tus_create_thread count_existing_threads allocate_tid
    allocate_from get_tcb_by_tid find_slot_by_tid rq_push
two_current = refl

second_ready : 0 < tally (ready_tid 2) two.threads
unfolding tus_init find_free_slot rq_init tus_create_thread count_existing_threads allocate_tid
    allocate_from get_tcb_by_tid find_slot_by_tid rq_push
second_ready = omega arith

two_queue : 0 < two.queue.size
unfolding tus_init find_free_slot rq_init tus_create_thread count_existing_threads allocate_tid
    allocate_from get_tcb_by_tid find_slot_by_tid rq_push
two_queue = omega arith

no_third : tally (ready_tid 3) two.threads ≡ 0
unfolding tus_init find_free_slot rq_init tus_create_thread count_existing_threads allocate_tid
    allocate_from get_tcb_by_tid find_slot_by_tid rq_push
no_third = refl

tus_yield_any_example :
    (next : ℕ) × ((pick_at
        (chosen two.sched_alg 7 (two.queue.size + 1))
        (contents two.queue ++ 1 ∷ [])).0
      ≡ some next)
    × HandsOver next two (tus_yield true 7 two (pos 0))
tus_yield_any_example = tus_yield_any 7 two 1 two-Good two_started two_current

tus_yield_ready_example : HandsOver 2 two (tus_yield true 7 two (pos 2))
tus_yield_ready_example = tus_yield_ready 7 two 1 1 two-Good two_started two_current second_ready

tus_yield_refused_example : Stays minus_one two (tus_yield true 7 two (pos 3))
tus_yield_refused_example =
    tus_yield_refused 7 two 1 2 two-Good two_started two_current refl no_third

tus_exit_next_example :
    (next : ℕ) × ((pick_at (chosen two.sched_alg 7 two.queue.size) (contents two.queue)).0
      ≡ some next)
    × HandsOver next two (tus_exit 7 two)
tus_exit_next_example = tus_exit_next 7 two 1 two-Good.inv two_started two_current two_queue

tus_cancel_ready_example :
    ((tus_cancel two (pos 2)).0 ≡ pos 0)
    × Good (tus_cancel two (pos 2)).1
    × ((tus_cancel two (pos 2)).1.current_tid ≡ two.current_tid)
    × ((tus_cancel two (pos 2)).1.initialized ≡ two.initialized)
    × (tally (ready_tid 2) (tus_cancel two (pos 2)).1.threads ≡ 0)
tus_cancel_ready_example = tus_cancel_ready two 1 2 two-Good two_started two_current second_ready

one_left-Good : Good one_left
one_left-Good = (Reachable-Healthy one_left (goes_on two-Reachable (cancels (pos 2)))).good

join_check_cases_example :
    ((get_tcb_by_tid one_left.threads 2 ≡ none)
      × (join_check one_left (pos 2) ≡ (joined minus_one, one_left)))
    ⊎ (((f : Found) × (get_tcb_by_tid one_left.threads 2 ≡ some f)
          × (is_ended f.tcb.state ≡ false)
          × (join_check one_left (pos 2) ≡ (yields, one_left)))
        ⊎ ((f : Found) × (get_tcb_by_tid one_left.threads 2 ≡ some f)
            × (f.tcb.state ≡ ended)
            × Joined one_left 2 (join_check one_left (pos 2))))
join_check_cases_example = join_check_cases one_left 2 one_left-Good

two_room : count_existing_threads two.threads < 64
unfolding tus_init find_free_slot rq_init tus_create_thread count_existing_threads allocate_tid
    allocate_from get_tcb_by_tid find_slot_by_tid rq_push
two_room = omega arith

tus_create_thread_lem_example : (t : ℕ) × Created two t (tus_create_thread true true true two)
tus_create_thread_lem_example = tus_create_thread_lem two two-Good two_started two_room

tus_init_lem_example : Started random (tus_init true true before (pos 2))
tus_init_lem_example = tus_init_lem before (pos 2) random refl refl refl

swapped-Inv : Inv swapped
swapped-Inv = (tus_yield_any 7 two 1 two-Good two_started two_current).2.inv

arrive-Good_example :
    Good (arrive swapped 2)
    × ((arrive swapped 2).current_tid ≡ some 2)
    × ((arrive swapped 2).initialized ≡ swapped.initialized)
unfolding tus_init find_free_slot rq_init tus_create_thread count_existing_threads allocate_tid
    allocate_from get_tcb_by_tid find_slot_by_tid rq_push tus_yield yield_from yield_any switch_to
    pick_next_tid_by_sched rq_pop
arrive-Good_example = arrive-Good swapped 2 swapped-Inv refl

-- A ring that runs over the end of the array.
abbrev ring : Ring
ring = record { ready_q = set (set (replicate 64 0) 63 5) 0 9; head = 63; tail = 1; size = 2 }

ring-IsValid : IsValid ring
ring-IsValid = record {
  full_array = refl;
  head_in = omega arith;
  tail_at = refl;
  size_in = omega arith;
}

rq_remove_tid_lem_example :
    ((rq_remove_tid 5 ring).0 ≡ true) × Holds (rq_remove_tid 5 ring).1 (9 ∷ [])
rq_remove_tid_lem_example = rq_remove_tid_lem 5 ring ring-IsValid

pick_next_tid_by_sched_lem_example :
    ((x : ℕ) × (some 9 ≡ some x))
    × ((pick_next_tid_by_sched random 7 ring).0 ≡ some 9)
    × Holds (pick_next_tid_by_sched random 7 ring).1 (5 ∷ [])
pick_next_tid_by_sched_lem_example =
    pick_next_tid_by_sched_lem random 7 ring ring-IsValid (omega arith)
