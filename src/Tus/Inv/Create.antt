-- ===== src/Tus/Inv/Create.antt =====
-- `tus_create_thread` and `tus_init` of Project2/tus.c and the invariant.
use bilkent_os_projects.Base.{
  ℕ, zero, suc, ◌+◌, ◌≤◌, ◌<◌, ◌≡◌, refl, ap, ◌∙◌, subst, true, false, Option, none, some, [], ◌∷◌,
  ◌++◌, length, ◌==◌, leb, arith, ℤ, pos, inl, inr, Bool-cases, Option-cases, get_elem?, set,
  length-set,
}
use bilkent_os_projects.Tus.Queue.{rq_push}
use bilkent_os_projects.Tus.Queue.Contents.{contents}
use bilkent_os_projects.Tus.State.{
  Tcb, Table, Tus, get_tcb_by_tid, find_free_slot, count_existing_threads, allocate_from,
  allocate_tid,
}
use bilkent_os_projects.Tus.Api.{tus_create_thread, new_tcb, place}
use bilkent_os_projects.Tus.Inv.{
  tally, with_tid, ready_tid, running_tid, any_ready, any_running, flagged,
}
use bilkent_os_projects.Tus.Inv.Tally.{tally-two, tally_mono, le-tally}
use bilkent_os_projects.Tus.Inv.Find.{get_tcb_by_tid-Stands, get_tcb_by_tid-some}
use bilkent_os_projects.Tus.Inv.Count.{push-Joins}
use bilkent_os_projects.Tus.Inv.Yield.{queue_has_room}
use bilkent_os_projects.Tus.Inv.Call.{Good}

tally-set :
    (g : Option Tcb → ℕ) (ts : Table) (i : ℕ) (o : Option Tcb)
    → g none ≡ 0
    → get_elem? ts i ≡ some none
    → tally g (set ts i o) ≡ tally g ts + g o
tally-set g [] i o z h = cc
tally-set g (x ∷ ts) zero o z h = let e : x ≡ none = cc in rw e (omega (arith, z))
tally-set g (x ∷ ts) (suc i) o z h = omega (arith, tally-set g ts i o z h)

-- A slot that is found is free, and one is found while there are fewer threads than slots.
find_free_slot_lem :
    (i : ℕ) (ts : Table)
    → count_existing_threads ts < length ts
    → (k : ℕ) × (find_free_slot i ts ≡ some (i + k)) × (get_elem? ts k ≡ some none)
unfolding find_free_slot count_existing_threads
find_free_slot_lem i [] h = absurd (omega arith)
find_free_slot_lem i (none ∷ ts) h = (0, ap some (omega arith), refl)
find_free_slot_lem i (some c ∷ ts) h =
    let (k, e, g) = find_free_slot_lem (suc i) ts (omega arith) in
    (suc k, e ∙ ap some (omega arith), g)

free_slot :
    (ts : Table)
    → count_existing_threads ts < length ts
    → (k : ℕ) × (find_free_slot 0 ts ≡ some k) × (get_elem? ts k ≡ some none)
free_slot ts h = let (k, e, g) = find_free_slot_lem 0 ts h in (k, e ∙ ap some (omega arith), g)

-- The threads with one of n tids, from `tid` on.
abbrev within : ℕ → ℕ → Option Tcb → ℕ
within tid zero o = 0
within tid (suc n) o = with_tid tid o + within (suc tid) n o

abbrev exists : Option Tcb → ℕ
exists none = 0
exists (some c) = 1

count_existing_lem : (ts : Table) → count_existing_threads ts ≡ tally exists ts
unfolding count_existing_threads
count_existing_lem [] = refl
count_existing_lem (none ∷ ts) = omega (arith, count_existing_lem ts)
count_existing_lem (some c ∷ ts) = omega (arith, count_existing_lem ts)

within-below : (n tid : ℕ) (c : Tcb) → c.tid < tid → within tid n (some c) ≡ 0
within-below zero tid c h = refl
within-below (suc n) tid c h =
    let miss : (c.tid == tid) ≡ false = ground arith in
    rw miss (omega (arith, within-below n (suc tid) c (omega arith)))

within-le : (n tid : ℕ) (o : Option Tcb) → within tid n o ≤ exists o
within-le zero tid o = omega arith
within-le (suc n) tid none = omega (arith, within-le n (suc tid) none)
within-le (suc n) tid (some c) = elim (Bool-cases (c.tid == tid)) [
  | inl hit ↦
      let e : c.tid < suc tid = ground arith in rw hit (omega (arith, within-below n (suc tid) c e))
  | inr miss ↦ rw miss (omega (arith, within-le n (suc tid) (some c)))
]

unused :
    (ts : Table) (t : ℕ)
    → tally (with_tid 0) ts ≡ 0
    → get_tcb_by_tid ts t ≡ none
    → tally (with_tid t) ts ≡ 0
unused ts t z missing = elim (Bool-cases (tally (with_tid t) ts == 0)) [
  | inl nobody ↦ ground arith
  | inr somebody ↦ let (f, found) = get_tcb_by_tid-some ts t z (ground arith) in cc (missing, found)
]

-- A tid that is given out is not in use.
allocate_from_free :
    (n tid : ℕ) (ts : Table) (t : ℕ)
    → 0 < tid
    → tally (with_tid 0) ts ≡ 0
    → allocate_from n tid ts ≡ some t
    → (tally (with_tid t) ts ≡ 0) × (0 < t)
unfolding allocate_from
allocate_from_free zero tid ts t p z h = cc
allocate_from_free (suc n) tid ts t p z h = elim (Option-cases (get_tcb_by_tid ts tid)) [
  | inl missing ↦
      let e : tid ≡ t = cc (rw (allocate_from, missing) at h) in
      subst (λ w. (tally (with_tid w) ts ≡ 0) × (0 < w)) e (unused ts tid z missing, p)
  | inr (f, found) ↦
      allocate_from_free n (suc tid) ts t (omega arith) z (rw (allocate_from, found) at h)
]

-- If none is, all n are in use.
allocate_from-none :
    (n tid : ℕ) (ts : Table) → allocate_from n tid ts ≡ none → n ≤ tally (within tid n) ts
unfolding allocate_from
allocate_from-none zero tid ts h = omega arith
allocate_from-none (suc n) tid ts h = elim (Option-cases (get_tcb_by_tid ts tid)) [
  | inl missing ↦ cc (rw (allocate_from, missing) at h)
  | inr (f, found) ↦
      let st = get_tcb_by_tid-Stands ts tid f found in
      let named = st.named in
      ground (
        arith,
        allocate_from-none n (suc tid) ts (rw (allocate_from, found) at h),
        le-tally (with_tid tid) ts f.slot (some f.tcb) st.at_slot,
        tally-two (with_tid tid) (within (suc tid) n) (within tid (suc n)) ts (λ o. omega arith),
      )
]

-- While there are fewer than 64 threads, a tid is given out that no thread has.
allocate_tid_lem :
    (ts : Table)
    → tally (with_tid 0) ts ≡ 0
    → count_existing_threads ts < 64
    → (t : ℕ) × (allocate_tid ts ≡ some t) × (tally (with_tid t) ts ≡ 0) × (0 < t)
unfolding allocate_tid
allocate_tid_lem ts z room = elim (Option-cases (allocate_from 64 1 ts)) [
  | inr (t, e) ↦ let (free, p) = allocate_from_free 64 1 ts t (omega arith) z e in (t, e, free, p)
  | inl full ↦ absurd (
      omega (
        arith,
        allocate_from-none 64 1 ts full,
        count_existing_lem ts,
        tally_mono (within 1 64) exists ts (within-le 64 1),
      ))
]

-- The state after a thread was made.
created :
    (s : Tus) (k t : ℕ)
    → Good s
    → get_elem? s.threads k ≡ some none
    → tally (with_tid t) s.threads ≡ 0
    → 0 < t
    → Good (record (place s k (new_tcb t)) { queue = (rq_push s.queue t).1 })
created s k t v g free p =
    let inv = v.inv in
    let sound = inv.sound in
    let j = push-Joins s.queue t sound.ring (queue_has_room s inv) in
    let more = j.more in
    let (now, cur, alone) = inv.current in
    let put =
      λ (h : Option Tcb → ℕ) (z : h none ≡ 0). tally-set h s.threads k (some (new_tcb t)) z g in
    record {
      inv = record {
        sound = record {
          ring = j.valid;
          slots = length-set s.threads k (some (new_tcb t)) ∙ sound.slots;
          unique = λ u. elim (Bool-cases (t == u)) [
            | inl same ↦
                let e : t ≡ u = ground arith in
                let none_yet = subst (λ w. tally (with_tid w) s.threads ≡ 0) e free in
                ground (arith, put (with_tid u) refl)
            | inr other ↦ ground (arith, sound.unique u, put (with_tid u) refl)
          ];
          positive = ground (arith, sound.positive, put (with_tid 0) refl);
        };
        queued = λ u. ground (arith, inv.queued u, j.others u, put (ready_tid u) refl);
        total = ground (arith, inv.total, put any_ready refl);
        current = (now, cur, ground (arith, alone, put (running_tid now) refl));
        single = ground (arith, inv.single, put any_running refl);
      };
      clean = ground (arith, v.clean, put flagged refl);
    }

-- A thread that was made: its tid is new, it stands at the end of the queue, and the caller runs
-- on.
pub record Created (s : Tus) (t : ℕ) (r : ℤ × Tus) : Type 0 where
  pub answer : r.0 ≡ pos t
  pub new : tally (with_tid t) s.threads ≡ 0
  pub queued : contents r.1.queue ≡ contents s.queue ++ t ∷ []
  pub good : Good r.1
  pub now : r.1.current_tid ≡ s.current_tid
  pub kept : r.1.initialized ≡ s.initialized

-- With fewer than 64 threads, a function and memory, a thread is made in a good state.
pub tus_create_thread_lem :
    (s : Tus)
    → Good s
    → s.initialized ≡ true
    → count_existing_threads s.threads < 64
    → (t : ℕ) × Created s t (tus_create_thread true true true s)
unfolding tus_create_thread
tus_create_thread_lem s v init room =
    let sound = v.inv.sound in
    let (t, given, free, p) = allocate_tid_lem s.threads sound.positive room in
    let (k, slot, g) = free_slot s.threads (omega (arith, sound.slots, room)) in
    let j = push-Joins s.queue t sound.ring (queue_has_room s v.inv) in
    let test : leb 64 (count_existing_threads s.threads) ≡ false = ground arith in
    let good = created s k t v g free p in
    (
      t,
      rw (tus_create_thread, init, test, slot, given, j.went)
          (record {
            answer = refl;
            new = free;
            queued = j.holds;
            good = good;
            now = refl;
            kept = init;
          }),
    )
