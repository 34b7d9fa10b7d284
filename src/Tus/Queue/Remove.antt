-- ===== src/Tus/Queue/Remove.antt =====
-- Removing and picking in the ring of Project2/tus.c: the ring is emptied and filled again.
use bilkent_os_projects.Base.{
  ℕ, zero, suc, ◌%◌, ◌≤◌, ◌<◌, ◌≡◌, refl, ap, ◌∙◌, Bool, true, false, some, List, [], ◌∷◌, length,
  ◌==◌, if◌then◌else◌, arith, List-cases, inl, inr,
}
use bilkent_os_projects.Tus.Queue.{
  Ring, Alg, fcfs, random, pop_all, push_all, keep_others, rq_remove_tid, pick_at,
  pick_next_tid_by_sched,
}
use bilkent_os_projects.Tus.Queue.Contents.{contents, IsValid}
use bilkent_os_projects.Tus.Queue.Refine.{
  Holds, length-contents, rq_pop_lem, pop_all_lem, push_all_lem,
}

-- A list without the first entry that is `tid`.
abbrev pub remove_first : ℕ → List ℕ → List ℕ
remove_first tid [] = []
remove_first tid (x ∷ xs) = if x == tid then xs else x ∷ remove_first tid xs

abbrev pub contains : ℕ → List ℕ → Bool
contains tid [] = false
contains tid (x ∷ xs) = if x == tid then true else contains tid xs

keep_others-found : (tid : ℕ) (xs : List ℕ) → keep_others tid true xs ≡ (xs, true)
unfolding keep_others
keep_others-found tid [] = refl
keep_others-found tid (x ∷ xs) = ground (arith, keep_others-found tid xs)

keep_others_lem :
    (tid : ℕ) (xs : List ℕ)
    → ((keep_others tid false xs).0 ≡ remove_first tid xs)
      × ((keep_others tid false xs).1 ≡ contains tid xs)
unfolding keep_others
keep_others_lem tid [] = (refl, refl)
keep_others_lem tid (x ∷ xs) = ground (arith, keep_others-found tid xs, keep_others_lem tid xs)

length-remove_first-le : (tid : ℕ) (xs : List ℕ) → length (remove_first tid xs) ≤ length xs
length-remove_first-le tid [] = omega arith
length-remove_first-le tid (x ∷ xs) = ground (arith, length-remove_first-le tid xs)

-- An emptied ring is filled with a list that is no longer than what it held.
refill :
    (q : Ring) (xs : List ℕ)
    → IsValid q
    → length xs ≤ length (contents q)
    → Holds (push_all (pop_all q.size q).1 xs) xs
refill q xs v short =
    let (_, valid, empty) = pop_all_lem q.size q v refl in
    let r = (pop_all q.size q).1 in
    let full = push_all_lem r xs valid (omega (arith, length-contents q, v.size_in)) in
    record { valid = full.valid; holds = full.holds ∙ rw empty }

-- `rq_remove_tid` takes out the first entry that is `tid`, keeps the others in order, and reports
-- whether there was one.
pub rq_remove_tid_lem :
    (tid : ℕ) (q : Ring)
    → IsValid q
    → ((rq_remove_tid tid q).0 ≡ contains tid (contents q))
      × Holds (rq_remove_tid tid q).1 (remove_first tid (contents q))
unfolding rq_remove_tid
rq_remove_tid_lem tid q v =
    let (all, _, _) = pop_all_lem q.size q v refl in
    let (kept, found) = keep_others_lem tid (contents q) in
    rw (all, kept, found)
      (refl, refill q (remove_first tid (contents q)) v (length-remove_first-le tid (contents q)))

pick_at_lem :
    (idx : ℕ) (xs : List ℕ)
    → idx < length xs
    → (x : ℕ) × ((pick_at idx xs).0 ≡ some x) × (suc (length (pick_at idx xs).1) ≡ length xs)
pick_at_lem idx [] h = absurd (omega arith)
pick_at_lem zero (x ∷ xs) h = (x, refl, refl)
pick_at_lem (suc idx) (x ∷ xs) h =
    let (y, picked, len) = pick_at_lem idx xs (omega arith) in (y, picked, ap suc len)

-- Which place of a queue of n entries is picked.
abbrev pub chosen : Alg → ℕ → ℕ → ℕ
chosen fcfs rand n = 0
chosen random rand n = rand % n

-- From a queue that is not empty the scheduler picks the oldest thread, or the one at the place
-- that the random number names; the others stay in order.
pub pick_next_tid_by_sched_lem :
    (alg : Alg) (rand : ℕ) (q : Ring)
    → IsValid q
    → 0 < q.size
    → let (picked, rest) = pick_at (chosen alg rand q.size) (contents q) in
      ((x : ℕ) × (picked ≡ some x))
      × ((pick_next_tid_by_sched alg rand q).0 ≡ picked)
      × Holds (pick_next_tid_by_sched alg rand q).1 rest
unfolding pick_next_tid_by_sched
pick_next_tid_by_sched_lem fcfs rand q v pos =
    let test : (q.size == 0) ≡ false = ground arith in
    elim (List-cases (contents q)) [
      | inl nothing ↦ absurd (omega (arith, length-contents q, ap length nothing))
      | inr (x, xs, e) ↦
          let (popped, after, _) = rq_pop_lem q x xs v e in rw (test, e) ((x, refl), popped, after)
    ]
pick_next_tid_by_sched_lem random rand q v pos =
    let (all, _, _) = pop_all_lem q.size q v refl in
    let (x, picked, len) =
      pick_at_lem (rand % q.size) (contents q) (omega (arith, length-contents q)) in
    let test : (q.size == 0) ≡ false = ground arith in
    rw (test, all)
      ((x, picked), refl, refill q (pick_at (rand % q.size) (contents q)).1 v (omega arith))
