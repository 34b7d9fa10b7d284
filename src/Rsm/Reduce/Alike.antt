-- ===== src/Rsm/Reduce/Alike.antt =====
-- Lists of jobs for the reduction of Project3/rsm.c that agree, or that differ in one place.
use bilkent_os_projects.Base.{
  ℕ, zero, suc, ◌+◌, ◌≤◌, ◌<◌, ◌≡◌, refl, sym, subst, true, false, List, [], ◌∷◌, some, get_elem?,
  set, set-set_self, get_elem?-set_self, get_elem?-lt, arith,
}
use bilkent_os_projects.Rsm.Reduce.{Vec, Job, done}
use bilkent_os_projects.Rsm.Reduce.Step.{Completable}
use bilkent_os_projects.Rsm.Reduce.Simulate.{implies, slack, debt, Follows, Completable-Follows}
use bilkent_os_projects.Rsm.Reduce.Order.{debt_self, Follows-refl}
use bilkent_os_projects.Rsm.Reduce.Late.{owed, Completable-set}

module _ (r : ℕ) where
  -- The jobs agree on the first r entries of their rows.
  abbrev pub Alike : List Job → List Job → Type 0
  Alike [] [] = Unit {0}
  Alike [] (k' ∷ ks') = ⊥
  Alike (k ∷ ks) [] = ⊥
  Alike (k ∷ ks) (k' ∷ ks') =
      (k.finish ≡ k'.finish)
      × ((j : ℕ) → j < r → (k.want j ≡ k'.want j) × (k.gain j ≡ k'.gain j))
      × Alike ks ks'

  pub Alike-sym : (ks ks' : List Job) → Alike ks ks' → Alike ks' ks
  Alike-sym [] [] a = tt
  Alike-sym [] (k' ∷ ks') a = absurd a
  Alike-sym (k ∷ ks) [] a = absurd a
  Alike-sym (k ∷ ks) (k' ∷ ks') a =
      (sym a.0, λ j lt. (sym (a.1 j lt).0, sym (a.1 j lt).1), Alike-sym ks ks' a.2)

  Alike-Follows : (ks ks' : List Job) → Alike ks ks' → Follows ks ks'
  Alike-Follows [] [] a = tt
  Alike-Follows [] (k' ∷ ks') a = absurd a
  Alike-Follows (k ∷ ks) [] a = absurd a
  Alike-Follows (k ∷ ks) (k' ∷ ks') a = (ground (arith, a.0), Alike-Follows ks ks' a.2)

  debt-Alike : (ks ks' : List Job) (j : ℕ) → j < r → Alike ks ks' → debt ks ks' j ≡ 0
  debt-Alike [] ks' j lt a = refl
  debt-Alike (k ∷ ks) [] j lt a = refl
  debt-Alike (k ∷ ks) (k' ∷ ks') j lt a = ground (arith, a.0, a.1 j lt, debt-Alike ks ks' j lt a.2)

  -- So one is completable if the other is.
  pub Completable-Alike :
      (ks ks' : List Job) (w w' : Vec)
      → Alike ks ks'
      → ((j : ℕ) → j < r → w j ≡ w' j)
      → Completable r ks w
      → Completable r ks' w'
  Completable-Alike ks ks' w w' a e =
      Completable-Follows r ks ks' w w' (Alike-Follows ks ks' a)
        (λ j lt. omega (arith, debt-Alike ks ks' j lt a, e j lt))

  Follows-set :
      (js : List Job) (i : ℕ) (k x : Job)
      → get_elem? js i ≡ some k
      → implies k.finish x.finish ≡ true
      → Follows js (set js i x)
  Follows-set [] i k x g f = tt
  Follows-set (y ∷ js) zero k x g f = let e : y ≡ k = cc in (rw e f, Follows-refl js)
  Follows-set (y ∷ js) (suc i) k x g f = (ground arith, Follows-set js i k x g f)

  debt-set_right :
      (js : List Job) (i : ℕ) (k x : Job) (j : ℕ)
      → get_elem? js i ≡ some k
      → debt js (set js i x) j ≡ slack k x j
  debt-set_right [] i k x j g = cc
  debt-set_right (y ∷ js) zero k x j g = let e : y ≡ k = cc in rw e (omega (arith, debt_self js j))
  debt-set_right (y ∷ js) (suc i) k x j g = ground (arith, debt-set_right js i k x j g)

  -- One job may be replaced by one that has been given its slack in advance.
  pub Completable-replace :
      (js : List Job) (w w' : Vec) (i : ℕ) (k x : Job)
      → get_elem? js i ≡ some k
      → implies k.finish x.finish ≡ true
      → ((j : ℕ) → j < r → w j + slack k x j ≤ w' j)
      → Completable r js w
      → Completable r (set js i x) w'
  Completable-replace js w w' i k x g f enough =
      Completable-Follows r js (set js i x) w w' (Follows-set js i k x g f)
        (λ j lt. omega (arith, enough j lt, debt-set_right js i k x j g))

  owed-done :
      (js : List Job) (i : ℕ) (k : Job) (j : ℕ)
      → get_elem? js i ≡ some k
      → k.gain j ≡ 0
      → owed (set js i (done k)) j ≡ owed js j
  owed-done [] i k j g z = refl
  owed-done (y ∷ js) zero k j g z = let e : y ≡ k = cc in rw e (ground arith)
  owed-done (y ∷ js) (suc i) k j g z = omega (arith, owed-done js i k j g z)

  -- A job that holds nothing may be replaced by one that wants no more than all there is.
  pub Completable-renew :
      (js : List Job) (w : Vec) (i : ℕ) (k x : Job)
      → get_elem? js i ≡ some k
      → ((j : ℕ) → j < r → k.gain j ≡ 0)
      → x.finish ≡ false
      → ((j : ℕ) → j < r → x.want j ≤ w j + owed js j)
      → Completable r js w
      → Completable r (set js i x) w
  Completable-renew js w i k x g none_held f fit c =
      subst (λ l. Completable r l w) (set-set_self js i (done k) x)
        (Completable-set r (set js i (done k)) w i (done k) x
          (get_elem?-set_self js i (done k) (get_elem?-lt js i g)) refl f
          (λ j lt. omega (arith, fit j lt, owed-done js i k j g (none_held j lt)))
          (Completable-replace js w w i k (done k) g (ground arith)
            (λ j lt. ground (arith, none_held j lt)) c))
