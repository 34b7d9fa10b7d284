-- ===== src/Tus/Inv/Init.antt =====
-- `tus_init` of Project2/tus.c establishes the invariant; calls of `tus_create_thread` that fail.
use bilkent_os_projects.Base.{
  ◌≡◌, refl, Bool, true, false, not, ◌&&◌, ◌||◌, some, [], length, leb, arith, ℤ, pos, minus_one,
  inl, inr, Option-cases,
}
use bilkent_os_projects.Tus.Queue.{Alg, rq_init}
use bilkent_os_projects.Tus.Queue.Contents.{contents}
use bilkent_os_projects.Tus.State.{Tus, find_free_slot, count_existing_threads, allocate_tid}
use bilkent_os_projects.Tus.Api.{tus_create_thread, tus_init, alg_of}
use bilkent_os_projects.Tus.Inv.Call.{Good}

-- The main thread runs, the queue is empty, and the algorithm is the one that was asked for.
pub record Started (alg : Alg) (r : ℤ × Tus) : Type 0 where
  pub answer : r.0 ≡ pos 1
  pub good : Good r.1
  pub now : r.1.current_tid ≡ some 1
  pub started : r.1.initialized ≡ true
  pub empty : contents r.1.queue ≡ []
  pub scheduler : r.1.sched_alg ≡ alg

-- If the library has not started, memory and getcontext are at hand and the algorithm is known, it
-- starts, whatever the table and the queue held before.
pub tus_init_lem :
    (s : Tus) (salg : ℤ) (alg : Alg)
    → s.initialized ≡ false
    → alg_of salg ≡ some alg
    → length s.queue.ready_q ≡ 64
    → Started alg (tus_init true true s salg)
unfolding tus_init find_free_slot rq_init
tus_init_lem s salg alg fresh known full =
    rw (tus_init, fresh, known)
      (record {
        answer = refl;
        good = record {
          inv = record {
            sound = record {
              ring = record {
                full_array = full;
                head_in = omega arith;
                tail_at = refl;
                size_in = omega arith;
              };
              slots = refl;
              unique = λ t. ground arith;
              positive = refl;
            };
            queued = λ t. ground arith;
            total = refl;
            current = (1, refl, refl);
            single = refl;
          };
          clean = refl;
        };
        now = refl;
        started = refl;
        empty = refl;
        scheduler = refl;
      })

-- A call of `tus_create_thread` without a function, without memory, or at 64 threads, fails and
-- changes nothing.
pub create_refused :
    (has_start gets saves : Bool) (s : Tus)
    → (not s.initialized
        || not (has_start && gets && saves)
        || leb 64 (count_existing_threads s.threads))
      ≡ true
    → tus_create_thread has_start gets saves s ≡ (minus_one, s)
unfolding tus_create_thread
create_refused has_start gets saves s h = elim (Option-cases (find_free_slot 0 s.threads)) [
  | inl no_slot ↦ rw (tus_create_thread, no_slot) (ground arith)
  | inr (k, slot) ↦ elim (Option-cases (allocate_tid s.threads)) [
    | inl no_tid ↦ rw (tus_create_thread, slot, no_tid) (ground arith)
    | inr (t, tid) ↦ rw (tus_create_thread, slot, tid) (ground (arith, h))
  ]
]
