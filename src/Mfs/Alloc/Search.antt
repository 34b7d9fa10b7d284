-- ===== src/Mfs/Alloc/Search.antt =====
-- The search for a free bit in Project4/mfs.c.
use bilkent_os_projects.Base.{
  ℕ, zero, suc, ◌+◌, ◌≤◌, ◌<◌, ◌≡◌, refl, subst, true, false, none, some, ◌==◌, ◌⊎◌, inl, inr,
  Bool-cases, arith,
}
use bilkent_os_projects.Mfs.Bitmap.{Bytes, mfs_get_bit}
use bilkent_os_projects.Mfs.Alloc.{first_free}

-- No bit of the n bits from `lo` on is free.
abbrev pub IsFull : Bytes → ℕ → ℕ → Type 0
IsFull b lo n = (j : ℕ) → lo ≤ j → j < lo + n → (mfs_get_bit b j == 0) ≡ false

-- The first free bit in a range.
pub record IsFirst (b : Bytes) (lo n i : ℕ) : Type 0 where
  pub above : lo ≤ i
  pub below : i < lo + n
  pub free : (mfs_get_bit b i == 0) ≡ true
  pub before : (j : ℕ) → lo ≤ j → j < i → (mfs_get_bit b j == 0) ≡ false

from_here :
    (b : Bytes) (lo j : ℕ)
    → (mfs_get_bit b lo == 0) ≡ false
    → lo ≤ j
    → (suc lo ≤ j → (mfs_get_bit b j == 0) ≡ false)
    → (mfs_get_bit b j == 0) ≡ false
from_here b lo j used h rest = elim (Bool-cases (j == lo)) [
  | inl same ↦ let e : lo ≡ j = ground arith in subst (λ m. (mfs_get_bit b m == 0) ≡ false) e used
  | inr other ↦ rest (ground arith)
]

-- The search finds the first free bit of the range, or none if there is none.
pub first_free_lem :
    (b : Bytes) (lo n : ℕ)
    → ((i : ℕ) × (first_free b lo n ≡ some i) × IsFirst b lo n i)
      ⊎ ((first_free b lo n ≡ none) × IsFull b lo n)
unfolding first_free
first_free_lem b lo zero = inr (refl, λ j h lt. absurd (omega arith))
first_free_lem b lo (suc n) = elim (Bool-cases (mfs_get_bit b lo == 0)) [
  | inl free ↦ inl (
    lo,
    rw (first_free, free) refl,
    record {
      above = omega arith;
      below = omega arith;
      free = free;
      before = λ j h lt. absurd (omega arith);
    },
  )
  | inr used ↦ elim (first_free_lem b (suc lo) n) [
    | inl (i, e, f) ↦
        let above = f.above in
        let below = f.below in
        inl (
          i,
          rw (first_free, used) e,
          record {
            above = omega arith;
            below = omega arith;
            free = f.free;
            before = λ j h lt. from_here b lo j used h (λ h'. f.before j h' lt);
          },
        )
    | inr (e, full) ↦
        inr (
          rw (first_free, used) e,
          λ j h lt. from_here b lo j used h (λ h'. full j h' (omega arith)),
        )
  ]
]
