-- ===== src/Rsm/Answers.antt =====
-- What the calls of Project3/rsm.c answer: the slot of the caller, when a request is granted at
-- once, and who is left waiting.
use mathlib.Core.Bool.{true≢false}
use bilkent_os_projects.Base.{
  ℕ, zero, suc, ◌+◌, ◌≡◌, ◌≢◌, ◌↔◌, refl, sym, ap, ◌∙◌, subst, true, false, Option, none, some,
  List, [], ◌∷◌, get_elem?, set-set_self, get_elem?-set_self, get_elem?-lt, All, Bool-cases,
  Option-cases, inl, inr, arith, pos,
}
use bilkent_os_projects.Rsm.Reduce.{Vec}
use bilkent_os_projects.Rsm.Reduce.Step.{Fits, fits-Fits, Fits-fits}
use bilkent_os_projects.Rsm.State.{Proc, Shared}
use bilkent_os_projects.Rsm.Process.{
  Local, Os, IntArray, map_existing_state, lock_state, validate_vector_bounds, row, is_mine,
  find_pid, remembers, remember, current_apid_locked,
}
use bilkent_os_projects.Rsm.Bank.{grant_proc, take_row}
use bilkent_os_projects.Rsm.Api.{
  succeed, returns, sleeps, own_slot, index, rsm_process_ended, end_slot,
}
use bilkent_os_projects.Rsm.Request.{
  asks, may_ask, asking, grant_now, grant_or_wait, rsm_request, release_slot, rsm_release,
}
use bilkent_os_projects.Rsm.Inv.{IsSafe}
use bilkent_os_projects.Rsm.Inv.Safety.{need_jobs-set, is_safe_iff}
use bilkent_os_projects.Rsm.Inv.Slots.{put}
use bilkent_os_projects.Rsm.Reach.{
  Reachable, next, requests, Follows, Follows-Reachable, Reachable-Inv,
}
use bilkent_os_projects.Rsm.Inv.Quiet.{Quiescent, try_satisfy_waiting-Quiescent}

-- What a look for the caller's slot may answer: a slot of its own, or that there is none.
abbrev pub Found : ℕ → List Proc → Option ℕ → Type 0
Found pid ps none = All (λ p. is_mine pid p ≡ false) ps
Found pid ps (some i) = (p : Proc) × (get_elem? ps i ≡ some p) × (is_mine pid p ≡ true)

abbrev Shifted : ℕ → ℕ → List Proc → Option ℕ → Type 0
Shifted i pid ps none = All (λ p. is_mine pid p ≡ false) ps
Shifted i pid ps (some k) =
    (m : ℕ) × (k ≡ i + m) × (p : Proc) × (get_elem? ps m ≡ some p) × (is_mine pid p ≡ true)

Shifted-cons :
    (pid i : ℕ) (p : Proc) (ps : List Proc) (o : Option ℕ)
    → is_mine pid p ≡ false
    → Shifted (suc i) pid ps o
    → Shifted i pid (p ∷ ps) o
Shifted-cons pid i p ps none not_mine h = (not_mine, h)
Shifted-cons pid i p ps (some k) not_mine (m, e, q, g, mine) = (suc m, omega arith, q, g, mine)

find_pid-Shifted : (pid i : ℕ) (ps : List Proc) → Shifted i pid ps (find_pid pid i ps)
unfolding find_pid
find_pid-Shifted pid i [] = tt
find_pid-Shifted pid i (p ∷ ps) = elim (Bool-cases (is_mine pid p)) [
  | inl mine ↦ rw (mine, find_pid) (zero, omega arith, p, refl, mine)
  | inr not_mine ↦
      rw (not_mine, find_pid)
        (Shifted-cons pid i p ps (find_pid pid (suc i) ps) not_mine
          (find_pid-Shifted pid (suc i) ps))
]

Shifted-Found : (pid : ℕ) (ps : List Proc) (o : Option ℕ) → Shifted 0 pid ps o → Found pid ps o
Shifted-Found pid ps none h = h
Shifted-Found pid ps (some k) (m, e, p, g, mine) =
    (p, subst (λ n. get_elem? ps n ≡ some p) (omega arith) g, mine)

remembers-Found :
    (s : Shared) (pid : ℕ) (o : Option ℕ) → remembers s pid o ≡ true → Found pid s.procs o
remembers-Found s pid none h = cc
remembers-Found s pid (some a) h = elim (Option-cases (get_elem? s.procs a)) [
  | inl empty ↦ absurd (cc (rw (empty, remembers) at h))
  | inr (p, g) ↦ (p, g, rw (g, remembers) at h)
]

remember_lem :
    (l : Local) (o : Option ℕ)
    → ((remember l o).0 ≡ o)
      × ((i : ℕ) → (remember l o).0 ≡ some i → (remember l o).1.apid ≡ some i)
remember_lem l none = (refl, λ i e. cc)
remember_lem l (some a) = (refl, λ i e. e)

-- The answer is a slot that is started under the caller's pid, or that there is none, and then no
-- slot is; the process remembers the slot that was found.
pub current_apid_locked-Found :
    (s : Shared) (l : Local)
    → Found l.pid s.procs (current_apid_locked s l).0
      × ((i : ℕ) → (current_apid_locked s l).0 ≡ some i → (current_apid_locked s l).1.apid ≡ some i)
unfolding current_apid_locked
current_apid_locked-Found s l = elim (Bool-cases (remembers s l.pid l.apid)) [
  | inl old ↦ rw (old, current_apid_locked) (remembers-Found s l.pid l.apid old, λ i e. e)
  | inr new ↦
      let o = find_pid l.pid 0 s.procs in
      let (first, second) = remember_lem l o in
      rw (new, current_apid_locked)
        (
          subst (Found l.pid s.procs) (sym first)
              (Shifted-Found l.pid s.procs o (find_pid-Shifted l.pid 0 s.procs)),
          second,
        )
]

-- Every process is registered, and in avoidance mode has submitted its claim.
abbrev pub IsComplete : Shared → Type 0
IsComplete s = All (λ p. (p.started ≡ true) × (s.avoid_enabled ≡ true → p.claimed ≡ true)) s.procs

-- At some moment of the history every process was registered, and in avoidance mode had submitted its
-- claim: the moment from which on Project3/README.txt lets requests through.
pub record IsOpen (s : Shared) : Type 0 where
  pub complete : Shared
  pub reached : Reachable complete
  pub all_there : IsComplete complete
  pub later : Follows complete s

-- A request that reaches the decision: slot a is the caller's, it is active, and it may ask; and
-- requests are let through.
pub record Admitted (os : Os) (l : Local) (s : Shared) (request : IntArray) (a : ℕ) (p : Proc)
    : Type 0 where
  pub mapped : (map_existing_state os l).0 ≡ true
  pub valid : validate_vector_bounds request s.resource_count ≡ true
  pub locked : lock_state os (map_existing_state os l).1 ≡ true
  pub mine : (current_apid_locked s (map_existing_state os l).1).0 ≡ some a
  pub slot : get_elem? s.procs a ≡ some p
  pub runs : p.active ≡ true
  pub lawful : may_ask s (row request) p ≡ true
  pub opened : IsOpen s

-- The state in which the row has gone to the process of slot a.
abbrev pub granted : Shared → ℕ → Vec → Proc → Shared
granted s a req p = put s (take_row s req) a (grant_proc s req p)

grant_now_iff :
    (s : Shared) (a : ℕ) (req : Vec) (p : Proc)
    → get_elem? s.procs a ≡ some p
    → (grant_now (asking s a req p) a req ≡ true) ↔ (
        Fits s.resource_count req s.available
        × (s.avoid_enabled ≡ true → IsSafe (granted s a req p)))
grant_now_iff s a req p g =
    let entered = get_elem?-set_self s.procs a (asks s req p) (get_elem?-lt s.procs a g) in
    let decides = is_safe_iff (asking s a req p) a req (asks s req p) entered in
    (
      λ h. (
        fits-Fits s.resource_count req s.available (ground arith),
        λ on.
            rw need_jobs-set
              (rw (set-set_self, need_jobs-set) at ((decides on).0 (ground arith)).1),
      ),
      λ (fit, safe).
          let enough = Fits-fits s.resource_count req s.available fit in
          elim (Bool-cases s.avoid_enabled) [
            | inl on ↦
                let test =
                  (decides on).1
                    (fit, rw (set-set_self, need_jobs-set) (rw need_jobs-set at (safe on))) in
                ground arith
            | inr off ↦ ground arith
          ],
    )

-- Slot a waits with its request entered.
abbrev pub waiting_in : Shared → ℕ → Vec → Proc → Shared
waiting_in s a req p = put s s.available a (record (asks s req p) { waiting = true })

rsm_request-Admitted :
    (os : Os) (l : Local) (s : Shared) (request : IntArray) (a : ℕ) (p : Proc)
    → Admitted os l s request a p
    → rsm_request os l s request
      ≡ grant_or_wait
          (current_apid_locked s (map_existing_state os l).1).1
          (asking s a (row request) p)
          a
          (row request)
          (asks s (row request) p)
unfolding rsm_request
rsm_request-Admitted os l s request a p h =
    rw (h.mapped, h.valid, h.locked, h.mine, h.slot, h.runs, h.lawful, h.mine) refl

grant_or_wait-granted :
    (l : Local) (s : Shared) (a : ℕ) (req : Vec) (p : Proc)
    → grant_now (asking s a req p) a req ≡ true
    → grant_or_wait l (asking s a req p) a req (asks s req p)
      ≡ succeed l (granted s a req (asks s req p))
unfolding grant_or_wait
grant_or_wait-granted l s a req p go = rw (go, set-set_self) refl

grant_or_wait-waits :
    (l : Local) (s : Shared) (a : ℕ) (req : Vec) (p : Proc)
    → grant_now (asking s a req p) a req ≡ false
    → grant_or_wait l (asking s a req p) a req (asks s req p)
      ≡ record { reply = sleeps a; local = l; state = waiting_in s a req p }
unfolding grant_or_wait
grant_or_wait-waits l s a req p wait = rw (wait, set-set_self) refl

-- After any history in which at some moment all processes were registered and, in avoidance mode, had
-- submitted their claims, a request that may be made is granted at once exactly if the row is available
-- and, in avoidance mode, everybody can still complete after the grant: the row moves to the slot of the
-- caller, and in avoidance mode everybody can complete in the state that is left; otherwise the caller
-- sleeps on its semaphore, and its slot waits with the request entered.
pub rsm_request_iff :
    (os : Os) (l : Local) (s : Shared) (request : IntArray) (a : ℕ) (p : Proc)
    → Admitted os l s request a p
    → (((rsm_request os l s request).reply ≡ returns (pos 0)) ↔ (
        Fits s.resource_count (row request) s.available
        × (s.avoid_enabled ≡ true → IsSafe (granted s a (row request) p))))
      × ((rsm_request os l s request).reply ≡ returns (pos 0)
          → (rsm_request os l s request).state ≡ granted s a (row request) (asks s (row request) p))
      × ((rsm_request os l s request).reply ≢ returns (pos 0)
          → ((rsm_request os l s request).reply ≡ sleeps a)
            × ((rsm_request os l s request).state ≡ waiting_in s a (row request) p))
      × ((rsm_request os l s request).state.avoid_enabled ≡ true
          → IsSafe (rsm_request os l s request).state)
rsm_request_iff os l s request a p h =
    let req = row request in
    let l' = (current_apid_locked s (map_existing_state os l).1).1 in
    let whole = rsm_request-Admitted os l s request a p h in
    let decides = grant_now_iff s a req p h.slot in
    let o = h.opened in
    let reached = Follows-Reachable o.complete s o.reached o.later in
    let left = (Reachable-Inv _ (next reached os l (requests request) refl)).safe in
    elim (Bool-cases (grant_now (asking s a req p) a req)) [
      | inl go ↦
          let e = whole ∙ grant_or_wait-granted l' s a req p go in
          (
            (λ _. decides.0 go, λ _. ap (λ r. r.reply) e),
            λ _. ap (λ r. r.state) e,
            λ other. absurd (other (ap (λ r. r.reply) e)),
            left,
          )
      | inr wait ↦
          let e = whole ∙ grant_or_wait-waits l' s a req p wait in
          let asleep : (rsm_request os l s request).reply ≡ sleeps a = ap (λ r. r.reply) e in
          (
            (
              λ got. absurd (cc (asleep, got)),
              λ fine. absurd (true≢false (sym (decides.1 fine) ∙ wait)),
            ),
            λ got. absurd (cc (asleep, got)),
            λ _. (asleep, ap (λ r. r.state) e),
            left,
          )
    ]

-- After a release that succeeds, nobody waits for a request that could be granted.
pub rsm_release-Quiescent :
    (os : Os) (l : Local) (s : Shared) (release : IntArray)
    → (rsm_release os l s release).reply ≡ returns (pos 0)
    → Quiescent (rsm_release os l s release).state
unfolding rsm_release
rsm_release-Quiescent os l s release h =
    let apid = (current_apid_locked s (map_existing_state os l).1).0 in
    elim (Option-cases (own_slot s apid)) [
      | inl empty ↦ absurd (ground (arith, rw empty at h))
      | inr (p, g) ↦
          let h' = rw g at h in
          rw g (
            ground
              (arith, try_satisfy_waiting-Quiescent (release_slot s (index apid) (row release) p)))
    ]

-- After a process has ended, if the call succeeds, nobody waits for a request that could be granted.
pub rsm_process_ended-Quiescent :
    (os : Os) (l : Local) (s : Shared)
    → (rsm_process_ended os l s).reply ≡ returns (pos 0)
    → Quiescent (rsm_process_ended os l s).state
unfolding rsm_process_ended
rsm_process_ended-Quiescent os l s h =
    let apid = (current_apid_locked s (map_existing_state os l).1).0 in
    elim (Option-cases (own_slot s apid)) [
      | inl empty ↦ absurd (ground (arith, rw empty at h))
      | inr (p, g) ↦
          let h' = rw g at h in
          rw g (ground (arith, try_satisfy_waiting-Quiescent (end_slot s (index apid) p)))
    ]
