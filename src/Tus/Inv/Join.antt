-- ===== src/Tus/Inv/Join.antt =====
-- The turns of the loop of `tus_join` of Project2/tus.c and the invariant.
use bilkent_os_projects.Base.{
  ℕ, zero, suc, ◌+◌, ◌≡◌, refl, ap, ◌∙◌, true, false, Option, none, some, [], ◌∷◌, length, arith,
  pos, minus_one, inl, inr, ◌⊎◌, Bool-cases, Option-cases, get_elem?,
}
use bilkent_os_projects.Tus.State.{
  Tcb, Table, Tus, Found, get_tcb_by_tid, find_slot_by_tid, clear, destroy_thread, ended,
}
use bilkent_os_projects.Tus.Api.{Join, joined, yields, join_check, is_ended}
use bilkent_os_projects.Tus.Inv.{
  tally, with_tid, ready_tid, running_tid, any_ready, any_running, flagged,
}
use bilkent_os_projects.Tus.Inv.Find.{Stands, get_tcb_by_tid-Stands}
use bilkent_os_projects.Tus.Inv.Call.{Good}

pub tally-clear :
    (g : Option Tcb → ℕ) (ts : Table) (i : ℕ) (o : Option Tcb)
    → g none ≡ 0
    → get_elem? ts i ≡ some o
    → tally g (clear ts i) + g o ≡ tally g ts
tally-clear g [] i o z h = cc
tally-clear g (x ∷ ts) zero o z h = let e : x ≡ o = cc in rw e (omega (arith, z))
tally-clear g (x ∷ ts) (suc i) o z h = omega (arith, tally-clear g ts i o z h)

length-clear : (ts : Table) (i : ℕ) → length (clear ts i) ≡ length ts
length-clear [] i = refl
length-clear (o ∷ ts) zero = refl
length-clear (o ∷ ts) (suc i) = ap suc (length-clear ts i)

-- A thread that ended is taken out of the table.
clear-Good :
    (s : Tus) (t : ℕ) (f : Found)
    → Good s
    → Stands s.threads t f
    → f.tcb.state ≡ ended
    → Good (record s { threads = clear s.threads f.slot })
      × (tally (with_tid t) (clear s.threads f.slot) ≡ 0)
clear-Good s t f v st is =
    let inv = v.inv in
    let sound = inv.sound in
    let g = st.at_slot in
    let named = st.named in
    let (now, cur, alone) = inv.current in
    let less =
      λ (h : Option Tcb → ℕ) (z : h none ≡ 0). tally-clear h s.threads f.slot (some f.tcb) z g in
    (
      record {
        inv = record {
          sound = record {
            ring = sound.ring;
            slots = length-clear s.threads f.slot ∙ sound.slots;
            unique = λ u. omega (arith, sound.unique u, less (with_tid u) refl);
            positive = omega (arith, sound.positive, less (with_tid 0) refl);
          };
          queued = λ u. ground (arith, inv.queued u, less (ready_tid u) refl);
          total = ground (arith, inv.total, less any_ready refl);
          current = (now, cur, ground (arith, alone, less (running_tid now) refl));
          single = ground (arith, inv.single, less any_running refl);
        };
        clean = ground (arith, v.clean, less flagged refl);
      },
      ground (arith, sound.unique t, less (with_tid t) refl),
    )

-- A joined thread is gone, and the rest is as good as before.
pub record Joined (s : Tus) (t : ℕ) (r : Join × Tus) : Type 0 where
  pub answer : r.0 ≡ joined (pos t)
  pub good : Good r.1
  pub gone : tally (with_tid t) r.1.threads ≡ 0
  pub now : r.1.current_tid ≡ s.current_tid
  pub kept : r.1.initialized ≡ s.initialized

join_ended :
    (s : Tus) (t : ℕ) (f : Found)
    → Good s
    → get_tcb_by_tid s.threads t ≡ some f
    → f.tcb.state ≡ ended
    → Joined s t (join_check s (pos t))
unfolding join_check destroy_thread get_tcb_by_tid
join_ended s t f v found is =
    let (good, gone) = clear-Good s t f v (get_tcb_by_tid-Stands s.threads t f found) is in
    let test : is_ended f.tcb.state ≡ true = rw is refl in
    let slot : find_slot_by_tid t 0 s.threads ≡ some f = ground (arith, found) in
    rw (join_check, found, is, destroy_thread, slot)
      (record { answer = refl; good = good; gone = gone; now = refl; kept = refl })

-- What a turn answers: an error if there is no such thread; that the caller is to yield, if the
-- thread has not ended; and its tid if it has, and then it is gone.
pub join_check_cases :
    (s : Tus) (t : ℕ)
    → Good s
    → ((get_tcb_by_tid s.threads t ≡ none) × (join_check s (pos t) ≡ (joined minus_one, s)))
      ⊎ (((f : Found) × (get_tcb_by_tid s.threads t ≡ some f)
            × (is_ended f.tcb.state ≡ false)
            × (join_check s (pos t) ≡ (yields, s)))
          ⊎ ((f : Found) × (get_tcb_by_tid s.threads t ≡ some f)
              × (f.tcb.state ≡ ended)
              × Joined s t (join_check s (pos t))))
unfolding join_check
join_check_cases s t v = elim (Option-cases (get_tcb_by_tid s.threads t)) [
  | inl missing ↦ inl (missing, rw (join_check, missing) refl)
  | inr (f, found) ↦ elim (Bool-cases (is_ended f.tcb.state)) [
    | inr lives ↦ inr (inl (f, found, lives, rw (join_check, found, lives) refl))
    | inl over ↦
        let is : f.tcb.state ≡ ended = ground arith in
        inr (inr (f, found, is, join_ended s t f v found is))
  ]
]
