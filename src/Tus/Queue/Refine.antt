-- ===== src/Tus/Queue/Refine.antt =====
-- The ring of Project2/tus.c behaves as a list of at most 64 thread ids, oldest first.
use native.Mathlib.Numerals.{add-one}
use bilkent_os_projects.Base.{
  ℕ, zero, suc, ◌+◌, ◌-◌, ◌%◌, ◌≤◌, ◌<◌, ◌≡◌, refl, sym, ap, ap₂, subst, ◌∙◌, true, false, Option,
  none, some, List, [], ◌∷◌, ◌++◌, append-nil, append_assoc, length, get_elem?, set,
  get_elem?-set_self, length-set, length-append, arith, leb, ◌==◌,
}
use bilkent_os_projects.Tus.Queue.{Ring, entry, rq_push, rq_pop, rq_push_front, pop_all, push_all}
use bilkent_os_projects.Tus.Queue.Contents.{
  around, contents, IsValid, length-around, around-mod, around-set_outside, around-snoc,
}

pub length-contents : (q : Ring) → length (contents q) ≡ q.size
length-contents q = length-around q.ready_q q.head q.size

-- What an operation does to a ring: the new ring is in order and holds `xs`.
pub record Holds (q : Ring) (xs : List ℕ) : Type 0 where
  pub valid : IsValid q
  pub holds : contents q ≡ xs

push_contents :
    (buf : List ℕ) (h n t x : ℕ)
    → length buf ≡ 64
    → t ≡ (h + n) % 64
    → n < 64
    → around (set buf t x) h (suc n) ≡ around buf h n ++ x ∷ []
push_contents buf h n t x len at_tail room =
    around-snoc (set buf t x) h n
    ∙ ap₂ (λ (l : List ℕ) (o : Option ℕ). l ++ entry o ∷ [])
        (around-set_outside buf h n t x (λ m lt e. omega arith))
        (subst (λ i. get_elem? (set buf t x) i ≡ some x) at_tail
          (get_elem?-set_self buf t x (omega arith)))

-- With room left an entry goes to the end; a full ring refuses it and stays as it is.
pub rq_push_lem :
    (q : Ring) (x : ℕ)
    → IsValid q
    → (q.size < 64 → ((rq_push q x).0 ≡ true) × Holds (rq_push q x).1 (contents q ++ x ∷ []))
      × (q.size ≡ 64 → rq_push q x ≡ (false, q))
unfolding rq_push
rq_push_lem q x v = (
  λ room.
      let kept = length-set q.ready_q q.tail x in
      let same = push_contents q.ready_q q.head q.size q.tail x v.full_array v.tail_at room in
      let test : leb 64 q.size ≡ false = ground arith in
      rw test (
        refl,
        record {
          valid = omega arith;
          holds = ap (around (set q.ready_q q.tail x) q.head) (add-one q.size) ∙ same;
        },
      ),
  λ full. let test : leb 64 q.size ≡ true = ground arith in rw test,
)

-- The oldest entry is taken off.
pub rq_pop_lem :
    (q : Ring) (x : ℕ) (xs : List ℕ)
    → IsValid q
    → contents q ≡ x ∷ xs
    → ((rq_pop q).0 ≡ some x) × Holds (rq_pop q).1 xs × ((rq_pop q).1.size + 1 ≡ q.size)
unfolding rq_pop
rq_pop_lem q x xs v e =
    let len = ap length e in
    let pos : suc (q.size - 1) ≡ q.size = omega (arith, length-contents q, len) in
    let test : (q.size == 0) ≡ false = ground arith in
    let e' : around q.ready_q q.head (suc (q.size - 1)) ≡ x ∷ xs =
      ap (around q.ready_q q.head) pos ∙ e in
    let hd : q.head % 64 ≡ q.head = omega (arith, v.head_in) in
    let front : entry (get_elem? q.ready_q q.head) ≡ x = cc (e', hd) in
    let behind : around q.ready_q (suc q.head) (q.size - 1) ≡ xs = cc e' in
    rw test (
      ap some front,
      record {
        valid = omega arith;
        holds =
            around-mod q.ready_q ((q.head + 1) % 64) (suc q.head) (q.size - 1) (omega arith)
            ∙ behind;
      },
      omega arith,
    )

pub rq_pop-empty : (q : Ring) → q.size ≡ 0 → rq_pop q ≡ (none, q)
unfolding rq_pop
rq_pop-empty q e = rw e

-- With room left an entry goes to the front.
pub rq_push_front_lem :
    (q : Ring) (x : ℕ)
    → IsValid q
    → q.size < 64
    → ((rq_push_front q x).0 ≡ true) × Holds (rq_push_front q x).1 (x ∷ contents q)
unfolding rq_push_front
rq_push_front_lem q x v room =
    let h = (q.head + 64 - 1) % 64 in
    let kept = length-set q.ready_q h x in
    let test : leb 64 q.size ≡ false = ground arith in
    rw test (
      refl,
      record {
        valid = omega arith;
        holds =
            ap (around (set q.ready_q h x) h) (add-one q.size)
            ∙ ap₂ (λ (o : Option ℕ) (l : List ℕ). entry o ∷ l)
                (subst (λ i. get_elem? (set q.ready_q h x) i ≡ some x) (omega arith)
                  (get_elem?-set_self q.ready_q h x (omega arith)))
                (around-set_outside q.ready_q (suc h) q.size h x (λ m lt e. omega arith)
                  ∙ around-mod q.ready_q (suc h) q.head q.size (omega arith));
      },
    )

-- Popping as often as there are entries yields them all, and leaves the ring empty.
pub pop_all_lem :
    (n : ℕ) (q : Ring)
    → IsValid q
    → q.size ≡ n
    → ((pop_all n q).0 ≡ contents q) × IsValid (pop_all n q).1 × ((pop_all n q).1.size ≡ 0)
unfolding pop_all
pop_all_lem zero q v e = (sym (ap (around q.ready_q q.head) e), v, e)
pop_all_lem (suc n) q v e =
    let x = entry (get_elem? q.ready_q (q.head % 64)) in
    let xs = around q.ready_q (suc q.head) n in
    let held : contents q ≡ x ∷ xs = ap (around q.ready_q q.head) e in
    let (popped, after, less) = rq_pop_lem q x xs v held in
    let (all, valid, empty) = pop_all_lem n (rq_pop q).1 after.valid (omega arith) in
    rw (popped, pop_all) (ap (◌∷◌ x) (all ∙ after.holds) ∙ sym held, valid, empty)

-- Pushing entries one after the other appends them, while there is room.
pub push_all_lem :
    (q : Ring) (xs : List ℕ)
    → IsValid q
    → q.size + length xs ≤ 64
    → Holds (push_all q xs) (contents q ++ xs)
unfolding push_all
push_all_lem q [] v room = record { valid = v; holds = sym (append-nil (contents q)) }
push_all_lem q (x ∷ xs) v room =
    let (_, after) = (rq_push_lem q x v).0 (omega arith) in
    let size : (rq_push q x).1.size + length xs ≤ 64 = omega (
      arith,
      length-contents (rq_push q x).1,
      length-contents q,
      ap length after.holds,
      length-append (contents q) (x ∷ []),
    ) in
    let rest = push_all_lem (rq_push q x).1 xs after.valid size in
    record {
      valid = rest.valid;
      holds =
          rest.holds
          ∙ ap (λ (l : List ℕ). l ++ xs) after.holds
          ∙ append_assoc (contents q) (x ∷ []) xs;
    }
