-- ===== src/Rsm/Reduce/Loop.antt =====
-- What the reduction loop of Project3/rsm.c does: it takes steps of `Reduces`, and ends stuck.
use bilkent_os_projects.Base.{
  ℕ, zero, suc, ◌≤◌, ◌<◌, ◌≡◌, refl, sym, inl, inr, true, false, List, [], ◌∷◌, ◌++◌, append_assoc,
  length, get_elem?-middle, set-middle, if◌then◌else◌, Bool-cases, arith,
}
use bilkent_os_projects.Rsm.Reduce.{
  Vec, Job, done, add_row, ready, round, reduce, all_finished, unfinished,
}
use bilkent_os_projects.Rsm.Reduce.Step.{Reduces, complete, Finished, Stuck, ready-Fits}

module _ (r : ℕ) where
  -- A round takes steps, whatever stands in front of the jobs that it has yet to visit.
  round-Reduces_behind :
      (js : List Job) (w : Vec) (pre ks : List Job) (v : Vec)
      → Reduces r js w (pre ++ ks) v
      → Reduces r js w (pre ++ (round r ks v).jobs) (round r ks v).work
  unfolding round
  round-Reduces_behind js w pre [] v d = d
  round-Reduces_behind js w pre (k ∷ ks) v d = elim (Bool-cases (ready r k v)) [
    | inl go ↦
        let (unfinished, enough) = ready-Fits r k v go in
        let next =
          complete d (length pre) k (get_elem?-middle pre k ks) unfinished enough
            (sym (set-middle pre k (done k) ks)) refl in
        rw go (
          rw append_assoc at (
            round-Reduces_behind js w (pre ++ done k ∷ []) ks (add_row v k.gain)
              (rw append_assoc next)))
    | inr wait ↦
        rw wait
          (rw append_assoc at (round-Reduces_behind js w (pre ++ k ∷ []) ks v (rw append_assoc d)))
  ]

  -- A round that finds nothing leaves the work as it was, and nothing can complete.
  round_idle :
      (ks : List Job) (v : Vec)
      → (round r ks v).found ≡ false
      → ((round r ks v).work ≡ v) × Stuck r (round r ks v).jobs v
  unfolding round
  round_idle [] v h = (refl, tt)
  round_idle (k ∷ ks) v h = elim (Bool-cases (ready r k v)) [
    | inl go ↦ absurd (cc (rw go at h))
    | inr wait ↦ let (same, stuck) = round_idle ks v (rw wait at h) in rw wait (same, (wait, stuck))
  ]

  -- A round that finds something leaves fewer unfinished jobs.
  round-unfinished-le : (ks : List Job) (v : Vec) → unfinished (round r ks v).jobs ≤ unfinished ks
  unfolding round unfinished
  round-unfinished-le [] v = omega arith
  round-unfinished-le (k ∷ ks) v =
      ground (arith, round-unfinished-le ks (if ready r k v then add_row v k.gain else v))

  round-unfinished-lt :
      (ks : List Job) (v : Vec)
      → (round r ks v).found ≡ true
      → unfinished (round r ks v).jobs < unfinished ks
  unfolding round unfinished
  round-unfinished-lt [] v h = cc
  round-unfinished-lt (k ∷ ks) v h = elim (Bool-cases (ready r k v)) [
    | inl go ↦
        rw (go, (ready-Fits r k v go).0) (omega (arith, round-unfinished-le ks (add_row v k.gain)))
    | inr wait ↦ rw wait (omega (arith, round-unfinished-lt ks v (rw wait at h)))
  ]

  pub reduce-Reduces :
      (fuel : ℕ) (js : List Job) (w : Vec) (ks : List Job) (v : Vec)
      → Reduces r js w ks v
      → Reduces r js w (reduce fuel r ks v).0 (reduce fuel r ks v).1
  unfolding reduce
  reduce-Reduces zero js w ks v d = d
  reduce-Reduces (suc fuel) js w ks v d =
      let next = round-Reduces_behind js w [] ks v d in
      elim (Bool-cases (round r ks v).found) [
        | inl more ↦
            rw (more, reduce)
              (reduce-Reduces fuel js w (round r ks v).jobs (round r ks v).work next)
        | inr last ↦ rw (last, reduce) next
      ]

  -- With more fuel than unfinished jobs the loop ends by its test: nothing more can complete.
  pub reduce-Stuck :
      (fuel : ℕ) (ks : List Job) (v : Vec)
      → unfinished ks < fuel
      → Stuck r (reduce fuel r ks v).0 (reduce fuel r ks v).1
  unfolding reduce
  reduce-Stuck zero ks v h = absurd (omega arith)
  reduce-Stuck (suc fuel) ks v h = elim (Bool-cases (round r ks v).found) [
    | inl more ↦
        rw (more, reduce)
          (reduce-Stuck fuel (round r ks v).jobs (round r ks v).work
            (omega (arith, round-unfinished-lt ks v more)))
    | inr last ↦ let (same, stuck) = round_idle ks v last in rw (last, reduce, same) stuck
  ]

pub unfinished-le-length : (ks : List Job) → unfinished ks ≤ length ks
unfolding unfinished
unfinished-le-length [] = omega arith
unfinished-le-length (k ∷ ks) = ground (arith, unfinished-le-length ks)

pub all_finished-Finished : (ks : List Job) → all_finished ks ≡ true → Finished ks
unfolding all_finished
all_finished-Finished [] h = tt
all_finished-Finished (k ∷ ks) h = ground (arith, all_finished-Finished ks)

pub Finished-all_finished : (ks : List Job) → Finished ks → all_finished ks ≡ true
unfolding all_finished
Finished-all_finished [] h = refl
Finished-all_finished (k ∷ ks) h = ground (arith, Finished-all_finished ks h.1)

pub unfinished-zero : (ks : List Job) → Finished ks → unfinished ks ≡ 0
unfolding unfinished
unfinished-zero [] h = refl
unfinished-zero (k ∷ ks) h = ground (arith, unfinished-zero ks h.1)
