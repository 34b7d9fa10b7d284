-- ===== src/Rsm/Reduce/Simulate.antt =====
-- Two systems of jobs for the reduction of Project3/rsm.c: if the second has been given in advance
-- what its jobs give back less or want more, then it can follow every order of the first.
use bilkent_os_projects.Base.{
  ℕ, zero, suc, ◌+◌, ◌-◌, ◌≤◌, ◌<◌, ◌≡◌, refl, ap, subst, inl, inr, Bool, true, false, not, ◌||◌,
  List, [], ◌∷◌, some, get_elem?, set, set-get_elem?, if◌then◌else◌, Bool-cases, arith, max,
}
use bilkent_os_projects.Rsm.Reduce.{Vec, Job, done, add_row}
use bilkent_os_projects.Rsm.Reduce.Step.{Fits, Reduces, start, complete, Finished, Completable}

abbrev pub implies : Bool → Bool → Bool
implies a b = not a || b

-- What job `k'` must have been given in advance to stand in for `k`.
abbrev pub slack : Job → Job → Vec
slack k k' j =
    if k.finish
    then 0
    else if k'.finish
    then k.gain j
    else max (k.gain j - k'.gain j) (k'.want j - k.want j)

abbrev pub debt : List Job → List Job → Vec
debt [] ks' j = 0
debt (k ∷ ks) [] j = 0
debt (k ∷ ks) (k' ∷ ks') j = slack k k' j + debt ks ks' j

-- What has finished in the first system has finished in the second.
abbrev pub Follows : List Job → List Job → Type 0
Follows [] [] = Unit {0}
Follows [] (k' ∷ ks') = ⊥
Follows (k ∷ ks) [] = ⊥
Follows (k ∷ ks) (k' ∷ ks') = (implies k.finish k'.finish ≡ true) × Follows ks ks'

pub get_elem?-Follows :
    (ks ks' : List Job) (i : ℕ) (k : Job)
    → Follows ks ks'
    → get_elem? ks i ≡ some k
    → (k' : Job) × (get_elem? ks' i ≡ some k')
get_elem?-Follows [] ks' i k f h = cc
get_elem?-Follows (x ∷ ks) [] i k f h = absurd f
get_elem?-Follows (x ∷ ks) (x' ∷ ks') zero k f h = (x', refl)
get_elem?-Follows (x ∷ ks) (x' ∷ ks') (suc i) k f h = get_elem?-Follows ks ks' i k f.1 h

pub set-Follows :
    (ks ks' : List Job) (i : ℕ) (x x' : Job)
    → Follows ks ks'
    → x'.finish ≡ true
    → Follows (set ks i x) (set ks' i x')
set-Follows [] [] i x x' f h = tt
set-Follows [] (k' ∷ ks') i x x' f h = absurd f
set-Follows (k ∷ ks) [] i x x' f h = absurd f
set-Follows (k ∷ ks) (k' ∷ ks') zero x x' f h = (ground arith, f.1)
set-Follows (k ∷ ks) (k' ∷ ks') (suc i) x x' f h = (f.0, set-Follows ks ks' i x x' f.1 h)

slack_over : (k k' : Job) (j : ℕ) → k.finish ≡ false → k'.finish ≡ true → slack k k' j ≡ k.gain j
slack_over k k' j u v = rw (u, v)

slack_open :
    (k k' : Job) (j : ℕ)
    → k.finish ≡ false
    → k'.finish ≡ false
    → slack k k' j ≡ max (k.gain j - k'.gain j) (k'.want j - k.want j)
slack_open k k' j u v = rw (u, v)

-- Replacing both jobs at a place changes the debt by the difference of their slacks.
pub debt-set :
    (ks ks' : List Job) (i : ℕ) (k k' x x' : Job) (j : ℕ)
    → get_elem? ks i ≡ some k
    → get_elem? ks' i ≡ some k'
    → debt (set ks i x) (set ks' i x') j + slack k k' j ≡ debt ks ks' j + slack x x' j
debt-set [] ks' i k k' x x' j h h' = cc
debt-set (y ∷ ks) [] i k k' x x' j h h' = cc
debt-set (y ∷ ks) (y' ∷ ks') zero k k' x x' j h h' =
    let e : y ≡ k = cc in let e' : y' ≡ k' = cc in rw (e, e') (omega arith)
debt-set (y ∷ ks) (y' ∷ ks') (suc i) k k' x x' j h h' =
    omega (arith, debt-set ks ks' i k k' x x' j h h')

module _ (r : ℕ) (js js' : List Job) (w w' : Vec) where
  -- The second system is in step with the first.
  abbrev pub InStep : List Job → Vec → List Job → Vec → Type 0
  InStep ks v ks' v' = Follows ks ks' × ((j : ℕ) → j < r → v j + debt ks ks' j ≤ v' j)

  -- The second system has followed the first to where it stands.
  abbrev pub Following : List Job → Vec → Type 0
  Following ks v = (ks' : List Job) × (v' : Vec) × Reduces r js' w' ks' v' × (InStep ks v ks' v')

  follow_step :
      (ks : List Job) (v : Vec) (i : ℕ) (k : Job)
      → get_elem? ks i ≡ some k
      → k.finish ≡ false
      → Fits r k.want v
      → Following ks v
      → Following (set ks i (done k)) (add_row v k.gain)
  follow_step ks v i k g u f (ks', v', d, (follows, enough)) =
      let (k', g') = get_elem?-Follows ks ks' i k follows g in
      let owed = λ (x' : Job) (j : ℕ). debt-set ks ks' i k k' (done k) x' j g g' in
      elim (Bool-cases k'.finish) [
        | inl over ↦ (
          ks',
          v',
          d,
          (
            subst (Follows (set ks i (done k))) (set-get_elem? ks' i k' g')
                (set-Follows ks ks' i (done k) k' follows over),
            λ j lt. omega (
              arith,
              enough j lt,
              owed k' j,
              slack_over k k' j u over,
              ap (λ (l : List Job). debt (set ks i (done k)) l j) (set-get_elem? ks' i k' g'),
            ),
          ),
        )
        | inr open_yet ↦ (
          set ks' i (done k'),
          add_row v' k'.gain,
          complete d i k' g' open_yet
              (λ j lt. omega (arith, enough j lt, owed k' j, slack_open k k' j u open_yet, f j lt))
              refl refl,
          (
            set-Follows ks ks' i (done k) (done k') follows refl,
            λ j lt. omega (arith, enough j lt, owed (done k') j, slack_open k k' j u open_yet),
          ),
        )
      ]

  pub follow : (ks : List Job) (v : Vec) → Reduces r js w ks v → InStep js w js' w' → Following ks v
  follow ks v start s = (js', w', start, s)
  follow ks v (complete {ks = ls} {v = u} d i k g f fit e e') s =
      rw (e, e') (follow_step ls u i k g f fit (follow ls u d s))

pub Finished-Follows : (ks ks' : List Job) → Follows ks ks' → Finished ks → Finished ks'
Finished-Follows [] [] f h = tt
Finished-Follows [] (k' ∷ ks') f h = absurd f
Finished-Follows (k ∷ ks) [] f h = absurd f
Finished-Follows (k ∷ ks) (k' ∷ ks') f h = (ground arith, Finished-Follows ks ks' f.1 h.1)

-- A system that is in step with a completable one is completable.
pub Completable-Follows :
    (r : ℕ) (js js' : List Job) (w w' : Vec)
    → Follows js js'
    → ((j : ℕ) → j < r → w j + debt js js' j ≤ w' j)
    → Completable r js w
    → Completable r js' w'
Completable-Follows r js js' w w' f enough (ks, v, d, all) =
    let (ks', v', d', s) = follow r js js' w w' ks v d (f, enough) in
    (ks', v', d', Finished-Follows ks ks' s.0 all)
