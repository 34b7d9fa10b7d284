-- ===== src/Rsm/Avoid.antt =====
-- Deadlock avoidance in Project3/rsm.c, after any history of calls.
use bilkent_os_projects.Base.{◌≡◌, true, ap, ◌∙◌, pos}
use bilkent_os_projects.Rsm.State.{Shared}
use bilkent_os_projects.Rsm.Process.{Local, Os, map_existing_state, lock_state}
use bilkent_os_projects.Rsm.Api.{returns}
use bilkent_os_projects.Rsm.Request.{rsm_detection}
use bilkent_os_projects.Rsm.Reach.{Reachable, Reachable-Inv}
use bilkent_os_projects.Rsm.Deadlock.{deadlocked_zero, rsm_detection_lem}

-- With avoidance enabled, whatever calls were made, a call of `rsm_detection` that attaches to the
-- state and takes the lock answers that no process is deadlocked.
pub avoidance_leaves_no_deadlock :
    (os : Os) (l : Local) (s : Shared)
    → Reachable s
    → s.avoid_enabled ≡ true
    → (map_existing_state os l).0 ≡ true
    → lock_state os (map_existing_state os l).1 ≡ true
    → (rsm_detection os l s).reply ≡ returns (pos 0)
avoidance_leaves_no_deadlock os l s d on m k =
    (rsm_detection_lem os l s m k).0
    ∙ ap (λ n. returns (pos n)) (deadlocked_zero s (Reachable-Inv s d) on)
