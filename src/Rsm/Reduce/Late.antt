-- ===== src/Rsm/Reduce/Late.antt =====
-- A process that joins the reduction of Project3/rsm.c when the others have completed.
use mathlib.Core.Bool.{true≢false}
use mathlib.Core.Option.{some-injective}
use bilkent_os_projects.Base.{
  ℕ, zero, suc, ◌+◌, ◌≤◌, ◌<◌, ◌≡◌, ◌≢◌, refl, sym, ap, subst, ◌∙◌, true, false, List, [], ◌∷◌,
  some, get_elem?, set, get_elem?-set_self, get_elem?-set_ne, get_elem?-lt, set-set_ne,
  set-set_self, All-set, if◌then◌else◌, arith,
}
use bilkent_os_projects.Rsm.Reduce.{Vec, Job, done, add_row}
use bilkent_os_projects.Rsm.Reduce.Step.{Reduces, start, complete, Finished, Completable}
use bilkent_os_projects.Rsm.Reduce.Simulate.{debt}
use bilkent_os_projects.Rsm.Reduce.Order.{Same, Reduces-Same}

-- What the unfinished jobs will give back.
abbrev pub owed : List Job → Vec
owed [] j = 0
owed (k ∷ ks) j = (if k.finish then 0 else k.gain j) + owed ks j

get_elem?-Same :
    (js ks : List Job) (i : ℕ) (k : Job)
    → Same js ks
    → get_elem? js i ≡ some k
    → k.finish ≡ true
    → (k' : Job) × (get_elem? ks i ≡ some k') × (k'.finish ≡ true)
get_elem?-Same [] ks i k s g f = cc
get_elem?-Same (y ∷ js) [] i k s g f = absurd s
get_elem?-Same (y ∷ js) (x ∷ ks) zero k s g f = (x, refl, ground (arith, ap (λ z. z.finish) e))
  where
    e : y ≡ k
    e = cc
get_elem?-Same (y ∷ js) (x ∷ ks) (suc i) k s g f = get_elem?-Same js ks i k s.3 g f

debt-Finished : (js ks : List Job) (j : ℕ) → Same js ks → Finished ks → debt js ks j ≡ owed js j
debt-Finished [] [] j s h = refl
debt-Finished [] (x ∷ ks) j s h = absurd s
debt-Finished (y ∷ js) [] j s h = absurd s
debt-Finished (y ∷ js) (x ∷ ks) j s h = ground (arith, debt-Finished js ks j s.3 h.1)

module _ (r : ℕ) (js : List Job) (w : Vec) (i : ℕ) (k x : Job) where
  -- The steps of the others do not look at a process that has completed.
  Reduces-set :
      (ks : List Job) (v : Vec)
      → get_elem? js i ≡ some k
      → k.finish ≡ true
      → Reduces r js w ks v
      → Reduces r (set js i x) w (set ks i x) v
  Reduces-set ks v g f start = start
  Reduces-set ks v g f (complete {ks = ls} {v = u} d m y gy fy fit e e') =
      let (k', g', f') = get_elem?-Same js ls i k (Reduces-Same r js w ls u d).0 g f in
      let other : i ≢ m = λ same. true≢false (
        sym f'
        ∙ ap (λ z. z.finish) (some-injective k' y (sym g' ∙ ap (get_elem? ls) same ∙ gy))
        ∙ fy) in
      complete (Reduces-set ls u g f d) m y (get_elem?-set_ne ls x other ∙ gy) fy fit
        (ap (λ l. set l i x) e ∙ sym (set-set_ne ls i m x (done y) other)) e'

  -- So it can be replaced by one that takes what is left when all the others have completed.
  pub Completable-set :
      get_elem? js i ≡ some k
      → k.finish ≡ true
      → x.finish ≡ false
      → ((j : ℕ) → j < r → x.want j ≤ w j + owed js j)
      → Completable r js w
      → Completable r (set js i x) w
  Completable-set g f fx fit (ks, v, d, all) =
      let (same, total) = Reduces-Same r js w ks v d in
      let (k', g', f') = get_elem?-Same js ks i k same g f in
      (
        set (set ks i x) i (done x),
        add_row v x.gain,
        complete (Reduces-set ks v g f d) i x (get_elem?-set_self ks i x (get_elem?-lt ks i g')) fx
            (λ j lt. omega (arith, fit j lt, total j, debt-Finished js ks j same all)) refl refl,
        subst Finished (sym (set-set_self ks i x (done x)))
            (All-set (λ z. z.finish ≡ true) ks i (done x) all refl),
      )
