-- ===== src/Tus/Inv/Count.antt =====
-- Counting the entries of the ready queue of Project2/tus.c.
use bilkent_os_projects.Base.{
  ℕ, zero, suc, ◌+◌, ◌<◌, ◌≡◌, refl, ap, Bool, true, Option, some, List, [], ◌∷◌, ◌++◌, ◌==◌, arith,
  Bool-cases, inl, inr, length, length-append, ◌∙◌,
}
use bilkent_os_projects.Tus.Queue.{
  Ring, Alg, rq_push, rq_remove_tid, pick_at, pick_next_tid_by_sched,
}
use bilkent_os_projects.Tus.Queue.Contents.{contents, IsValid}
use bilkent_os_projects.Tus.Queue.Refine.{length-contents, rq_push_lem}
use bilkent_os_projects.Tus.Queue.Remove.{
  remove_first, contains, chosen, rq_remove_tid_lem, pick_next_tid_by_sched_lem,
}
use bilkent_os_projects.Tus.Inv.{one, count}

pub count-append : (t : ℕ) (xs ys : List ℕ) → count t (xs ++ ys) ≡ count t xs + count t ys
count-append t [] ys = omega arith
count-append t (x ∷ xs) ys = omega (arith, count-append t xs ys)

pub count-remove_first :
    (u t : ℕ) (xs : List ℕ)
    → contains t xs ≡ true
    → count u (remove_first t xs) + one (t == u) ≡ count u xs
count-remove_first u t [] h = cc
count-remove_first u t (x ∷ xs) h = elim (Bool-cases (x == t)) [
  | inl hit ↦ let e : x ≡ t = ground arith in rw hit (rw e (omega arith))
  | inr miss ↦ rw miss (omega (arith, count-remove_first u t xs (rw miss at h)))
]

pub contains-count : (t : ℕ) (xs : List ℕ) → 0 < count t xs → contains t xs ≡ true
contains-count t [] h = absurd (omega arith)
contains-count t (x ∷ xs) h = elim (Bool-cases (x == t)) [
  | inl hit ↦ rw hit refl
  | inr miss ↦ rw miss (contains-count t xs (omega (arith, rw miss at h)))
]

pub count-pick_at :
    (u i x : ℕ) (xs : List ℕ)
    → (pick_at i xs).0 ≡ some x
    → count u (pick_at i xs).1 + one (x == u) ≡ count u xs
count-pick_at u i x [] h = cc
count-pick_at u zero x (y ∷ xs) h = let e : y ≡ x = cc in rw e (omega arith)
count-pick_at u (suc i) x (y ∷ xs) h = omega (arith, count-pick_at u i x xs h)

pub length-pick_at :
    (i x : ℕ) (xs : List ℕ) → (pick_at i xs).0 ≡ some x → suc (length (pick_at i xs).1) ≡ length xs
length-pick_at i x [] h = cc
length-pick_at zero x (y ∷ xs) h = refl
length-pick_at (suc i) x (y ∷ xs) h = ap suc (length-pick_at i x xs h)

-- What a thread that leaves the queue takes from it.
pub record Picks (next : ℕ) (q : Ring) (r : Option ℕ × Ring) : Type 0 where
  pub took : r.0 ≡ some next
  pub valid : IsValid r.1
  pub less : r.1.size + 1 ≡ q.size
  pub others : (u : ℕ) → count u (contents r.1) + one (next == u) ≡ count u (contents q)

pub pick-Picks :
    (alg : Alg) (rand : ℕ) (q : Ring)
    → IsValid q
    → 0 < q.size
    → (next : ℕ) × ((pick_at (chosen alg rand q.size) (contents q)).0 ≡ some next)
      × Picks next q (pick_next_tid_by_sched alg rand q)
pick-Picks alg rand q v some_left =
    let ((next, e), picked, after) = pick_next_tid_by_sched_lem alg rand q v some_left in
    let i = chosen alg rand q.size in
    let held = after.holds in
    (
      next,
      e,
      record {
        took = picked ∙ e;
        valid = after.valid;
        less = omega (
          arith,
          length-contents (pick_next_tid_by_sched alg rand q).1,
          length-contents q,
          ap length held,
          length-pick_at i next (contents q) e,
        );
        others =
            λ u. ap (λ l. count u l + one (next == u)) held ∙ count-pick_at u i next (contents q) e;
      },
    )

-- A thread joins the queue at its end.
pub record Joins (t : ℕ) (q : Ring) (r : Bool × Ring) : Type 0 where
  pub went : r.0 ≡ true
  pub valid : IsValid r.1
  pub more : r.1.size ≡ q.size + 1
  pub others : (u : ℕ) → count u (contents r.1) ≡ count u (contents q) + one (t == u)
  pub holds : contents r.1 ≡ contents q ++ t ∷ []

-- On a ring in order with room left `rq_push` succeeds, and puts the entry behind those that are
-- there.
pub push-Joins : (q : Ring) (t : ℕ) → IsValid q → q.size < 64 → Joins t q (rq_push q t)
push-Joins q t v room =
    let (pushed, after) = (rq_push_lem q t v).0 room in
    let held = after.holds in
    record {
      went = pushed;
      valid = after.valid;
      more = omega (
        arith,
        length-contents (rq_push q t).1,
        length-contents q,
        ap length held,
        length-append (contents q) (t ∷ []),
      );
      others = λ u. ap (count u) held ∙ count-append u (contents q) (t ∷ []) ∙ omega arith;
      holds = held;
    }

-- A thread that the queue has is taken out of it.
pub record Leaves (t : ℕ) (q : Ring) (r : Bool × Ring) : Type 0 where
  pub found : r.0 ≡ true
  pub valid : IsValid r.1
  pub less : r.1.size + 1 ≡ q.size
  pub others : (u : ℕ) → count u (contents r.1) + one (t == u) ≡ count u (contents q)

length-remove_first :
    (t : ℕ) (xs : List ℕ) → contains t xs ≡ true → suc (length (remove_first t xs)) ≡ length xs
length-remove_first t [] h = cc
length-remove_first t (x ∷ xs) h = elim (Bool-cases (x == t)) [
  | inl hit ↦ rw hit refl
  | inr miss ↦ rw miss (ap suc (length-remove_first t xs (rw miss at h)))
]

pub remove-Leaves :
    (q : Ring) (t : ℕ) → IsValid q → 0 < count t (contents q) → Leaves t q (rq_remove_tid t q)
remove-Leaves q t v has =
    let (found, after) = rq_remove_tid_lem t q v in
    let held = after.holds in
    let there = contains-count t (contents q) has in
    record {
      found = found ∙ there;
      valid = after.valid;
      less = omega (
        arith,
        length-contents (rq_remove_tid t q).1,
        length-contents q,
        ap length held,
        length-remove_first t (contents q) there,
      );
      others =
          λ u. ap (λ l. count u l + one (t == u)) held ∙ count-remove_first u t (contents q) there;
    }
