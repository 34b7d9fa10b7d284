-- ===== src/Tus/Inv/Find.antt =====
-- Looking threads up in the table of Project2/tus.c.
use bilkent_os_projects.Base.{
  ℕ, zero, suc, ◌+◌, ◌≤◌, ◌<◌, ◌≡◌, refl, subst, inl, inr, Option, none, some, [], ◌∷◌, get_elem?,
  Bool-cases, Option-cases, ◌==◌, arith,
}
use bilkent_os_projects.Tus.State.{
  ready, running, Tcb, Table, Found, find_slot_by_tid, get_tcb_by_tid,
}
use bilkent_os_projects.Tus.Inv.{tally, with_tid, ready_tid, running_tid}
use bilkent_os_projects.Tus.Inv.Tally.{tally_mono, tally-others}

-- The thread stands in its slot under the tid that was looked for.
pub record Stands (ts : Table) (t : ℕ) (f : Found) : Type 0 where
  pub at_slot : get_elem? ts f.slot ≡ some (some f.tcb)
  pub named : f.tcb.tid ≡ t

-- From slot i on: the thread that is found stands k slots further.
find_from :
    (t i : ℕ) (ts : Table) (f : Found)
    → find_slot_by_tid t i ts ≡ some f
    → (k : ℕ) × (f.slot ≡ i + k) × (get_elem? ts k ≡ some (some f.tcb)) × (f.tcb.tid ≡ t)
unfolding find_slot_by_tid
find_from t i [] f h = cc
find_from t i (none ∷ ts) f h =
    let (k, e, g, n) = find_from t (suc i) ts f h in (suc k, omega arith, g, n)
find_from t i (some c ∷ ts) f h = elim (Bool-cases (c.tid == t)) [
  | inl hit ↦
      (zero, ground (arith, rw hit at h), ground (arith, rw hit at h), ground (arith, rw hit at h))
  | inr miss ↦
      let (k, e, g, n) = find_from t (suc i) ts f (rw miss at h) in (suc k, omega arith, g, n)
]

find_none : (t i : ℕ) (ts : Table) → find_slot_by_tid t i ts ≡ none → tally (with_tid t) ts ≡ 0
unfolding find_slot_by_tid
find_none t i [] h = refl
find_none t i (none ∷ ts) h = omega (arith, find_none t (suc i) ts h)
find_none t i (some c ∷ ts) h = elim (Bool-cases (c.tid == t)) [
  | inl hit ↦ cc (rw hit at h)
  | inr miss ↦ rw miss (omega (arith, find_none t (suc i) ts (rw miss at h)))
]

pub get_tcb_by_tid-Stands :
    (ts : Table) (t : ℕ) (f : Found) → get_tcb_by_tid ts t ≡ some f → Stands ts t f
unfolding get_tcb_by_tid
get_tcb_by_tid-Stands ts t f h = elim (Bool-cases (t == 0)) [
  | inl null ↦ cc (rw null at h)
  | inr other ↦
      let (k, e, g, n) = find_from t 0 ts f (rw other at h) in
      record {
        at_slot = subst (λ m. get_elem? ts m ≡ some (some f.tcb)) (omega arith) g;
        named = n;
      }
]

-- A thread that is counted is found.
pub get_tcb_by_tid-some :
    (ts : Table) (t : ℕ)
    → tally (with_tid 0) ts ≡ 0
    → 0 < tally (with_tid t) ts
    → (f : Found) × (get_tcb_by_tid ts t ≡ some f)
unfolding get_tcb_by_tid
get_tcb_by_tid-some ts t none_zero h = elim (Option-cases (get_tcb_by_tid ts t)) [
  | inr found ↦ found
  | inl missing ↦ elim (Bool-cases (t == 0)) [
    | inl null ↦
        let e : t ≡ 0 = ground arith in
        absurd (omega (arith, none_zero, subst (λ m. 0 < tally (with_tid m) ts) e h))
    | inr other ↦ absurd (omega (arith, find_none t 0 ts (rw (get_tcb_by_tid, other) at missing)))
  ]
]

pub running_le : (t : ℕ) (o : Option Tcb) → running_tid t o ≤ with_tid t o
running_le t none = omega arith
running_le t (some c) = ground arith

pub ready_le : (t : ℕ) (o : Option Tcb) → ready_tid t o ≤ with_tid t o
ready_le t none = omega arith
ready_le t (some c) = ground arith

-- The only thread of a tid is the one that counts as running, or as ready.
pub running_of :
    (ts : Table) (t : ℕ) (f : Found)
    → Stands ts t f
    → tally (with_tid t) ts ≤ 1
    → tally (running_tid t) ts ≡ 1
    → f.tcb.state ≡ running
running_of ts t f st u r = ground (
  arith,
  tally-others (running_tid t) (with_tid t) ts f.slot (some f.tcb) (running_le t) st.at_slot,
  st.named,
)

pub ready_of :
    (ts : Table) (t : ℕ) (f : Found)
    → Stands ts t f
    → tally (with_tid t) ts ≤ 1
    → 0 < tally (ready_tid t) ts
    → f.tcb.state ≡ ready
ready_of ts t f st u r = ground (
  arith,
  tally-others (ready_tid t) (with_tid t) ts f.slot (some f.tcb) (ready_le t) st.at_slot,
  st.named,
)

-- A ready thread is found, and it is ready.
pub find_ready :
    (ts : Table) (t : ℕ)
    → tally (with_tid 0) ts ≡ 0
    → tally (with_tid t) ts ≤ 1
    → 0 < tally (ready_tid t) ts
    → (f : Found) × (get_tcb_by_tid ts t ≡ some f) × Stands ts t f × (f.tcb.state ≡ ready)
find_ready ts t z u r =
    let (f, e) =
      get_tcb_by_tid-some ts t z
        (omega (arith, r, tally_mono (ready_tid t) (with_tid t) ts (ready_le t))) in
    let st = get_tcb_by_tid-Stands ts t f e in (f, e, st, ready_of ts t f st u r)
