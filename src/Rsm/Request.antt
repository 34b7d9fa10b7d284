-- ===== src/Rsm/Request.antt =====
-- `rsm_request`, `rsm_release` and `rsm_detection` of Project3/rsm.c (lines 451-640).
use bilkent_os_projects.Base.{
  ℕ, suc, ◌+◌, ◌-◌, Bool, true, not, ◌&&◌, ◌||◌, Option, none, some, List, map, length, get_elem?,
  set, leb, ◌==◌, if◌then◌else◌, all_below, ℤ, pos, minus_one,
}
use bilkent_os_projects.Rsm.Reduce.{Vec, Job, fits, reduce, unfinished}
use bilkent_os_projects.Rsm.State.{Proc, Shared, for_row}
use bilkent_os_projects.Rsm.Process.{
  Local, Os, IntArray, map_existing_state, lock_state, validate_vector_bounds, row,
  current_apid_locked,
}
use bilkent_os_projects.Rsm.Bank.{is_safe, grant_proc, take_row, try_satisfy_waiting}
use bilkent_os_projects.Rsm.Api.{returns, sleeps, Outcome, fail, succeed, own_slot, index, give_row}

-- Lines 486-490.
abbrev pub asks : Shared → Vec → Proc → Proc
asks s req p = record p { requested_once = true; request = for_row s.resource_count req p.request }

-- The tests of lines 466-484: within what exists, and in avoidance mode within the claim.
abbrev pub may_ask : Shared → Vec → Proc → Bool
may_ask s req p =
    fits s.resource_count req s.existing
    && (not s.avoid_enabled || p.claimed && fits s.resource_count req p.need)

-- Slot a with its request entered.
abbrev pub asking : Shared → ℕ → Vec → Proc → Shared
asking s a req p = record s { procs = set s.procs a (asks s req p) }

abbrev pub grant_now : Shared → ℕ → Vec → Bool
grant_now s a req =
    fits s.resource_count req s.available && (not s.avoid_enabled || is_safe s a req)

-- Lines 486-532: grant at once, or wait. `s` has the request entered.
unfoldable pub grant_or_wait : Local → Shared → ℕ → Vec → Proc → Outcome
grant_or_wait l s a req p =
    if grant_now s a req
    then succeed l
        (record s { available = take_row s req; procs = set s.procs a (grant_proc s req p) })
    else record {
      reply = sleeps a;
      local = l;
      state = record s { procs = set s.procs a (record p { waiting = true }) };
    }

unfoldable pub rsm_request : Os → Local → Shared → IntArray → Outcome
rsm_request os l₀ s request =
    let (mapped, l₁) = map_existing_state os l₀ in
    if not mapped || not (validate_vector_bounds request s.resource_count) || not (lock_state os l₁)
    then fail l₁ s
    else let (apid, l) = current_apid_locked s l₁ in
      elim (own_slot s apid) [
        | none ↦ fail l s
        | some p ↦
            if not p.active
            then fail l s
            else if not (may_ask s (row request) p)
            then fail l s
            else grant_or_wait l (asking s (index apid) (row request) p) (index apid) (row request)
                (asks s (row request) p)
      ]

-- The rest of a call that sleeps: `sem_wait(&process_sem[apid])`. `none` while the value is 0;
-- `waits` is false if the wait fails other than by a signal.
unfoldable pub resume : Bool → Shared → ℕ → Option (ℤ × Shared)
resume waits s a = elim (get_elem? s.procs a) [
  | none ↦ none
  | some p ↦
      if not waits
      then some (minus_one, s)
      else if p.sem == 0
      then none
      else some (pos 0, record s { procs = set s.procs a (record p { sem = p.sem - 1 }) })
]

-- Lines 557-563.
abbrev pub gives : Shared → Vec → Proc → Proc
gives s rel p = record p {
  allocation = for_row s.resource_count (λ j. p.allocation j - rel j) p.allocation;
  need =
      if s.avoid_enabled then for_row s.resource_count (λ j. p.need j + rel j) p.need else p.need;
}

unfoldable pub release_slot : Shared → ℕ → Vec → Proc → Shared
release_slot s a rel p = record s {
  available = give_row s rel;
  procs = set s.procs a (gives s rel p);
}

unfoldable pub rsm_release : Os → Local → Shared → IntArray → Outcome
rsm_release os l₀ s release =
    let (mapped, l₁) = map_existing_state os l₀ in
    if not mapped || not (validate_vector_bounds release s.resource_count) || not (lock_state os l₁)
    then fail l₁ s
    else let (apid, l) = current_apid_locked s l₁ in
      elim (own_slot s apid) [
        | none ↦ fail l s
        | some p ↦
            if not p.active
            then fail l s
            else if not (fits s.resource_count (row release) p.allocation)
            then fail l s
            else succeed l (try_satisfy_waiting (release_slot s (index apid) (row release) p))
      ]

-- Process i as `rsm_detection` sees it (lines 588-603).
abbrev pub request_job : ℕ → Proc → Job
request_job r p = record {
  want = p.request;
  gain = p.allocation;
  finish = if p.active then all_below r (λ j. leb (p.allocation j) 0) else true;
}

abbrev pub request_jobs : ℕ → List Proc → List Job
request_jobs r = map (request_job r)

unfoldable pub deadlocked : Shared → ℕ
deadlocked s =
    unfinished
      (reduce (suc (length (request_jobs s.resource_count s.procs))) s.resource_count
        (request_jobs s.resource_count s.procs) s.available).0

unfoldable pub rsm_detection : Os → Local → Shared → Outcome
rsm_detection os l₀ s =
    let (mapped, l) = map_existing_state os l₀ in
    if not mapped || not (lock_state os l)
    then fail l s
    else record { reply = returns (pos (deadlocked s)); local = l; state = s }
