-- ===== src/Rsm/Deadlock.antt =====
-- `rsm_detection` of Project3/rsm.c: what it counts, and that avoidance leaves nothing to count.
use bilkent_os_projects.Base.{
  ℕ, ◌≤◌, ◌<◌, ◌≡◌, refl, true, List, [], ◌∷◌, All, leb, pos, arith, all_below, all_below-true,
}
use bilkent_os_projects.Rsm.Reduce.{Vec, Job, unfinished}
use bilkent_os_projects.Rsm.Reduce.Step.{Reduces}
use bilkent_os_projects.Rsm.Reduce.Loop.{all_finished-Finished, unfinished-zero}
use bilkent_os_projects.Rsm.Reduce.Simulate.{debt, slack, Follows, Completable-Follows}
use bilkent_os_projects.Rsm.Reduce.Order.{
  result, result-Reduces, result-Follows, all_finished-result,
}
use bilkent_os_projects.Rsm.State.{Proc, Shared}
use bilkent_os_projects.Rsm.Process.{Local, Os, map_existing_state, lock_state}
use bilkent_os_projects.Rsm.Api.{returns}
use bilkent_os_projects.Rsm.Request.{request_job, request_jobs, deadlocked, rsm_detection}
use bilkent_os_projects.Rsm.Inv.{Inv, need_job, need_jobs}
use bilkent_os_projects.Rsm.Inv.Rows.{Ok}

unfinished-Follows : (ks ks' : List Job) → Follows ks ks' → unfinished ks' ≤ unfinished ks
unfolding unfinished
unfinished-Follows [] [] f = omega arith
unfinished-Follows [] (k' ∷ ks') f = absurd f
unfinished-Follows (k ∷ ks) [] f = absurd f
unfinished-Follows (k ∷ ks) (k' ∷ ks') f = ground (arith, f.0, unfinished-Follows ks ks' f.1)

-- The count is the least number of processes that any order of completion leaves unfinished: no
-- order leaves fewer, and some order leaves that many.
pub deadlocked_least :
    (s : Shared)
    → ((ks : List Job) (v : Vec)
        → Reduces s.resource_count (request_jobs s.resource_count s.procs) s.available ks v
        → deadlocked s ≤ unfinished ks)
      × ((ks : List Job) × (v : Vec) × Reduces s.resource_count
            (request_jobs s.resource_count s.procs)
            s.available
            ks
            v
          × (unfinished ks ≡ deadlocked s))
unfolding deadlocked
deadlocked_least s =
    let r = s.resource_count in
    let js = request_jobs r s.procs in
    (
      λ ks v d.
          unfinished-Follows ks (result r js s.available) (result-Follows r js s.available ks v d),
      (result r js s.available, _, result-Reduces r js s.available, refl),
    )

-- In avoidance mode a pending request is within the need, and a process that holds nothing is
-- counted as finished.
module _ (s : Shared) (on : s.avoid_enabled ≡ true) where
  requests-Follows : (ps : List Proc) → Follows (need_jobs ps) (request_jobs s.resource_count ps)
  requests-Follows [] = tt
  requests-Follows (p ∷ ps) = (ground arith, requests-Follows ps)

  slack_request :
      (p : Proc) (j : ℕ)
      → j < s.resource_count
      → Ok s p
      → slack (need_job p) (request_job s.resource_count p) j ≡ 0
  slack_request p j lt v = ground (
    arith,
    v.rows j lt,
    λ (h : all_below s.resource_count (λ i. leb (p.allocation i) 0) ≡ true).
        all_below-true s.resource_count (λ i. leb (p.allocation i) 0) h j lt,
  )

  debt_request :
      (ps : List Proc) (j : ℕ)
      → j < s.resource_count
      → All (Ok s) ps
      → debt (need_jobs ps) (request_jobs s.resource_count ps) j ≡ 0
  debt_request [] j lt a = refl
  debt_request (p ∷ ps) j lt a = omega (arith, slack_request p j lt a.0, debt_request ps j lt a.1)

-- In avoidance mode `rsm_detection` counts no process.
pub deadlocked_zero : (s : Shared) → Inv s → s.avoid_enabled ≡ true → deadlocked s ≡ 0
unfolding deadlocked
deadlocked_zero s v on =
    let r = s.resource_count in
    let js = request_jobs r s.procs in
    let way =
      Completable-Follows r (need_jobs s.procs) js s.available s.available
        (requests-Follows s on s.procs)
        (λ j lt. omega (arith, debt_request s on s.procs j lt v.slots)) (v.safe on) in
    unfinished-zero (result r js s.available) (
      all_finished-Finished (result r js s.available)
        ((all_finished-result r js s.available).1 way))

-- A call of `rsm_detection` that reaches the state returns the count; it writes nothing shared.
pub rsm_detection_lem :
    (os : Os) (l : Local) (s : Shared)
    → (map_existing_state os l).0 ≡ true
    → lock_state os (map_existing_state os l).1 ≡ true
    → ((rsm_detection os l s).reply ≡ returns (pos (deadlocked s)))
      × ((rsm_detection os l s).state ≡ s)
unfolding rsm_detection
rsm_detection_lem os l s m k = (ground arith, ground arith)
