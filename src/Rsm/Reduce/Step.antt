-- ===== src/Rsm/Reduce/Step.antt =====
-- Completion of processes in any order: the relation that the loop of Project3/rsm.c explores.
use bilkent_os_projects.Base.{
  ℕ, ◌≤◌, ◌<◌, ◌≡◌, true, false, List, some, get_elem?, set, arith, leb, all_below-true,
  all_below-intro, All,
}
use bilkent_os_projects.Rsm.Reduce.{Vec, Job, done, fits, add_row, ready}

-- Row `u` fits in row `v`.
abbrev pub Fits : ℕ → Vec → Vec → Type 0
Fits r u v = (j : ℕ) → j < r → u j ≤ v j

-- From the jobs `js` with `w` to hand out, some processes can complete, one after the other, so
-- that the jobs are `ks` and `v` is left to hand out.
pub data Reduces (r : ℕ) (js : List Job) (w : Vec) : List Job → Vec → Type 0 where
  start : Reduces r js w js w
  complete :
      {ks : List Job} {v : Vec}
      → Reduces r js w ks v
      → (i : ℕ) (k : Job) → get_elem? ks i ≡ some k
      → k.finish ≡ false
      → Fits r k.want v
      → {ks' : List Job} {v' : Vec} → ks' ≡ set ks i (done k)
      → v' ≡ add_row v k.gain
      → Reduces r js w ks' v'

-- Every process has completed.
abbrev pub Finished : List Job → Type 0
Finished ks = All (λ k. k.finish ≡ true) ks

-- Some order lets every process complete.
abbrev pub Completable : ℕ → List Job → Vec → Type 0
Completable r js w = (ks : List Job) × (v : Vec) × Reduces r js w ks v × Finished ks

-- No process can complete.
abbrev pub Stuck : ℕ → List Job → Vec → Type 0
Stuck r ks w = All (λ k. ready r k w ≡ false) ks

pub fits-Fits : (r : ℕ) (u v : Vec) → fits r u v ≡ true → Fits r u v
unfolding fits
fits-Fits r u v h j lt = ground (arith, all_below-true r (λ j. leb (u j) (v j)) h j lt)

pub Fits-fits : (r : ℕ) (u v : Vec) → Fits r u v → fits r u v ≡ true
unfolding fits
Fits-fits r u v h = all_below-intro r _ (λ j lt. ground (arith, h j lt))

pub ready-Fits :
    (r : ℕ) (k : Job) (w : Vec) → ready r k w ≡ true → (k.finish ≡ false) × Fits r k.want w
unfolding ready
ready-Fits r k w h = (ground arith, fits-Fits r k.want w (ground arith))

pub Fits-ready :
    (r : ℕ) (k : Job) (w : Vec) → k.finish ≡ false → Fits r k.want w → ready r k w ≡ true
unfolding ready
Fits-ready r k w f h = ground (arith, Fits-fits r k.want w h)
