-- ===== src/Rsm/Inv/Safety.antt =====
-- The Banker's algorithm of Project3/rsm.c: what `is_safe` decides, and that a way for everybody
-- to complete is never lost.
use bilkent_os_projects.Base.{
  ℕ, zero, suc, ◌+◌, ◌-◌, ◌<◌, ◌≡◌, ◌↔◌, refl, ap, true, List, [], ◌∷◌, some, get_elem?, set, All,
  arith,
}
use bilkent_os_projects.Rsm.Reduce.{Vec}
use bilkent_os_projects.Rsm.Reduce.Step.{Fits, fits-Fits, Fits-fits}
use bilkent_os_projects.Rsm.Reduce.Late.{owed}
use bilkent_os_projects.Rsm.Reduce.Order.{all_finished-result}
use bilkent_os_projects.Rsm.Reduce.Alike.{Alike, Alike-sym, Completable-Alike}
use bilkent_os_projects.Rsm.State.{Proc, Shared, held}
use bilkent_os_projects.Rsm.Bank.{safe_jobs, is_safe, grant_proc, take_row}
use bilkent_os_projects.Rsm.Inv.{need_job, need_jobs, IsSafe}
use bilkent_os_projects.Rsm.Inv.Rows.{Ok}

pub get_elem?-need_jobs :
    (ps : List Proc) (i : ℕ) (p : Proc)
    → get_elem? ps i ≡ some p
    → get_elem? (need_jobs ps) i ≡ some (need_job p)
get_elem?-need_jobs [] i p g = cc
get_elem?-need_jobs (x ∷ ps) zero p g = let e : x ≡ p = cc in rw e
get_elem?-need_jobs (x ∷ ps) (suc i) p g = get_elem?-need_jobs ps i p g

pub need_jobs-set :
    (ps : List Proc) (i : ℕ) (q : Proc) → need_jobs (set ps i q) ≡ set (need_jobs ps) i (need_job q)
need_jobs-set [] i q = refl
need_jobs-set (x ∷ ps) zero q = refl
need_jobs-set (x ∷ ps) (suc i) q = ap (◌∷◌ (need_job x)) (need_jobs-set ps i q)

-- Processes that are not active hold nothing.
pub owed-need_jobs :
    (s : Shared) (ps : List Proc) (j : ℕ)
    → j < s.resource_count
    → All (Ok s) ps
    → owed (need_jobs ps) j ≡ held ps j
owed-need_jobs s [] j lt a = refl
owed-need_jobs s (p ∷ ps) j lt a = ground (arith, a.0.rows j lt, owed-need_jobs s ps j lt a.1)

module _ (r a : ℕ) (req : Vec) where
  -- Behind slot a the jobs of `is_safe` are those of the needs.
  safe_jobs_past : (i : ℕ) (ps : List Proc) → a < i → Alike r (safe_jobs i a req ps) (need_jobs ps)
  unfolding safe_jobs
  safe_jobs_past i [] lt = tt
  safe_jobs_past i (p ∷ ps) lt =
      (refl, λ j h. ground arith, safe_jobs_past (suc i) ps (omega arith))

  -- At slot a they are those of the process with the request granted.
  safe_jobs_at :
      (i m : ℕ) (ps : List Proc) (p q : Proc)
      → get_elem? ps m ≡ some p
      → i + m ≡ a
      → q.active ≡ p.active
      → ((j : ℕ)
          → j < r
          → (q.need j ≡ p.need j - req j) × (q.allocation j ≡ p.allocation j + req j))
      → Alike r (safe_jobs i a req ps) (need_jobs (set ps m q))
  unfolding safe_jobs
  safe_jobs_at i m [] p q g e act same = cc
  safe_jobs_at i zero (x ∷ ps) p q g e act same =
      let h : x ≡ p = cc in
      rw h (
        ground (arith, act),
        λ j lt. ground (arith, same j lt),
        safe_jobs_past (suc i) ps (omega arith),
      )
  safe_jobs_at i (suc m) (x ∷ ps) p q g e act same =
      (refl, λ j lt. ground arith, safe_jobs_at (suc i) m ps p q g (omega arith) act same)

-- In avoidance mode `is_safe` answers 1 for a slot exactly when the request is available, and when it is granted there is still
-- an order in which every active process can get all that it may ask for and end.
pub is_safe_iff :
    (s : Shared) (a : ℕ) (req : Vec) (p : Proc)
    → get_elem? s.procs a ≡ some p
    → s.avoid_enabled ≡ true
    → (is_safe s a req ≡ true) ↔ (
        Fits s.resource_count req s.available
        × IsSafe
            (record s { available = take_row s req; procs = set s.procs a (grant_proc s req p) }))
unfolding is_safe
is_safe_iff s a req p g on =
    let r = s.resource_count in
    let alike =
      safe_jobs_at r a req 0 a s.procs p (grant_proc s req p) g (omega arith) refl
        (λ j lt. ground arith) in
    let jobs = safe_jobs 0 a req s.procs in
    let work : Vec = λ j. s.available j - req j in
    let decides = all_finished-result r jobs work in
    (
      λ h. (
        fits-Fits r req s.available (ground arith),
        Completable-Alike r jobs _ work (take_row s req) alike (λ j lt. ground arith)
            (decides.0 (ground arith)),
      ),
      λ (fit, c).
          let yes_fit = Fits-fits r req s.available fit in
          let yes_all = decides.1 (
            Completable-Alike r _ jobs (take_row s req) work (Alike-sym r jobs _ alike)
              (λ j lt. ground arith) c) in
          ground arith,
    )
