-- ===== src/Rsm/Reduce/Order.antt =====
-- No order of completion gets further than the loop of Project3/rsm.c, and a process that has
-- completed may as well complete last.
use bilkent_os_projects.Base.{
  ℕ, zero, suc, ◌+◌, ◌≡◌, ◌↔◌, refl, sym, ◌∙◌, ap, subst, true, false, List, [], ◌∷◌, some,
  get_elem?, set, length, All-get, arith,
}
use mathlib.Core.Bool.{true≢false}
use bilkent_os_projects.Rsm.Reduce.{Vec, Job, done, ready, reduce, all_finished}
use bilkent_os_projects.Rsm.Reduce.Step.{
  Fits, Reduces, start, complete, Completable, Stuck, Fits-ready,
}
use bilkent_os_projects.Rsm.Reduce.Loop.{
  reduce-Reduces, reduce-Stuck, unfinished-le-length, all_finished-Finished, Finished-all_finished,
}
use bilkent_os_projects.Rsm.Reduce.Simulate.{
  implies, Follows, debt, slack, follow, Finished-Follows,
}

-- The same processes, some of which have finished in the meantime.
abbrev pub Same : List Job → List Job → Type 0
Same [] [] = Unit {0}
Same [] (k' ∷ ks') = ⊥
Same (k ∷ ks) [] = ⊥
Same (k ∷ ks) (k' ∷ ks') =
    (k.want ≡ k'.want) × (k.gain ≡ k'.gain) × (implies k.finish k'.finish ≡ true) × Same ks ks'

Same-refl : (ks : List Job) → Same ks ks
Same-refl [] = tt
Same-refl (k ∷ ks) = (refl, refl, ground arith, Same-refl ks)

Same-Follows : (ks ks' : List Job) → Same ks ks' → Follows ks ks'
Same-Follows [] [] s = tt
Same-Follows [] (k' ∷ ks') s = absurd s
Same-Follows (k ∷ ks) [] s = absurd s
Same-Follows (k ∷ ks) (k' ∷ ks') s = (s.2, Same-Follows ks ks' s.3)

pub Follows-refl : (ks : List Job) → Follows ks ks
Follows-refl ks = Same-Follows ks ks (Same-refl ks)

Same-set :
    (js ks : List Job) (i : ℕ) (k : Job)
    → get_elem? ks i ≡ some k
    → Same js ks
    → Same js (set ks i (done k))
Same-set [] [] i k g s = tt
Same-set [] (x ∷ ks) i k g s = absurd s
Same-set (y ∷ js) [] i k g s = absurd s
Same-set (y ∷ js) (x ∷ ks) zero k g s =
    let e : x ≡ k = cc in (s.0 ∙ ap (λ z. z.want) e, s.1 ∙ ap (λ z. z.gain) e, ground arith, s.3)
Same-set (y ∷ js) (x ∷ ks) (suc i) k g s = (s.0, s.1, s.2, Same-set js ks i k g s.3)

slack_step :
    (y x k : Job) (j : ℕ)
    → y.want j ≡ k.want j
    → y.gain j ≡ k.gain j
    → x.finish ≡ false
    → implies y.finish x.finish ≡ true
    → x ≡ k
    → slack y (done k) j ≡ slack y x j + k.gain j
slack_step y x k j a b u m e =
    rw e (ground (arith, ap (λ z. z.finish) e, ap (λ z. z.want j) e, ap (λ z. z.gain j) e))

-- What a step hands back is what it adds to the debt.
debt-done :
    (js ks : List Job) (i : ℕ) (k : Job) (j : ℕ)
    → get_elem? ks i ≡ some k
    → k.finish ≡ false
    → Same js ks
    → debt js (set ks i (done k)) j ≡ debt js ks j + k.gain j
debt-done [] [] i k j g u s = cc
debt-done [] (x ∷ ks) i k j g u s = absurd s
debt-done (y ∷ js) [] i k j g u s = absurd s
debt-done (y ∷ js) (x ∷ ks) zero k j g u s =
    let e : x ≡ k = cc in
    let want : y.want j ≡ k.want j = ap (λ f. f j) s.0 ∙ ap (λ z. z.want j) e in
    let gain : y.gain j ≡ k.gain j = ap (λ f. f j) s.1 ∙ ap (λ z. z.gain j) e in
    ground (arith, slack_step y x k j want gain (ap (λ z. z.finish) e ∙ u) s.2 e)
debt-done (y ∷ js) (x ∷ ks) (suc i) k j g u s = omega (arith, debt-done js ks i k j g u s.3)

pub debt_self : (ks : List Job) (j : ℕ) → debt ks ks j ≡ 0
debt_self [] j = refl
debt_self (k ∷ ks) j = ground (arith, debt_self ks j)

module _ (r : ℕ) (js : List Job) (w : Vec) where
  -- Whatever has completed, the processes are the same and their rows are accounted for.
  pub Reduces-Same :
      (ks : List Job) (v : Vec)
      → Reduces r js w ks v
      → Same js ks × ((j : ℕ) → w j + debt js ks j ≡ v j)
  Reduces-Same ks v start = (Same-refl js, λ j. omega (arith, debt_self js j))
  Reduces-Same ks v (complete {ks = ls} {v = u} d i k g f fit e e') =
      let (same, total) = Reduces-Same ls u d in
      (
        rw e (Same-set js ls i k g same),
        λ j. rw (e, e') (omega (arith, total j, debt-done js ls i k j g f same)),
      )

  -- From a stuck state there is no step.
  Stuck-stays : (ks : List Job) (v : Vec) → Stuck r js w → Reduces r js w ks v → (ks ≡ js) × (v ≡ w)
  Stuck-stays ks v s start = (refl, refl)
  Stuck-stays ks v s (complete {ks = ls} {v = u} d i k g f fit e e') =
      let (same, same') = Stuck-stays ls u s d in
      let go = Fits-ready r k w f (subst (Fits r k.want) same' fit) in
      let wait = All-get (λ z. ready r z w ≡ false) js i k s (rw same at g) in
      absurd (true≢false (sym go ∙ wait))

-- A state in which nothing more can complete has completed whatever can ever complete.
pub Reduces-Follows :
    (r : ℕ) (js : List Job) (w : Vec) (res : List Job) (rest : Vec)
    → Reduces r js w res rest
    → Stuck r res rest
    → (ks : List Job) (v : Vec) → Reduces r js w ks v
    → Follows ks res
Reduces-Follows r js w res rest d stuck ks v d' =
    let (same, total) = Reduces-Same r js w res rest d in
    let (ks', v', e, s) =
      follow r js res w rest ks v d' (Same-Follows js res same, λ j lt. omega (arith, total j)) in
    subst (Follows ks) (Stuck-stays r res rest ks' v' stuck e).0 s.0

abbrev pub result : ℕ → List Job → Vec → List Job
result r js w = (reduce (suc (length js)) r js w).0

pub result-Reduces :
    (r : ℕ) (js : List Job) (w : Vec)
    → Reduces r js w (result r js w) (reduce (suc (length js)) r js w).1
result-Reduces r js w = reduce-Reduces r (suc (length js)) js w js w start

-- Whatever can complete in some order has completed when the loop ends.
pub result-Follows :
    (r : ℕ) (js : List Job) (w : Vec) (ks : List Job) (v : Vec)
    → Reduces r js w ks v
    → Follows ks (result r js w)
result-Follows r js w =
    Reduces-Follows r js w (result r js w) (reduce (suc (length js)) r js w).1
      (result-Reduces r js w)
      (reduce-Stuck r (suc (length js)) js w (omega (arith, unfinished-le-length js)))

-- The loop finishes every process exactly when some order does.
pub all_finished-result :
    (r : ℕ) (js : List Job) (w : Vec) → (all_finished (result r js w) ≡ true) ↔ Completable r js w
all_finished-result r js w = (
  λ h. (
    result r js w,
    (reduce (suc (length js)) r js w).1,
    result-Reduces r js w,
    all_finished-Finished (result r js w) h,
  ),
  λ (ks, v, d, all).
      Finished-all_finished (result r js w)
        (Finished-Follows ks (result r js w) (result-Follows r js w ks v d) all),
)
