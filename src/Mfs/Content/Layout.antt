-- ===== src/Mfs/Content/Layout.antt =====
-- Which blocks a file of Project4/mfs.c has, and what a round of `mfs_write` finds for its bytes.
use bilkent_os_projects.Base.{
  ℕ, ◌+◌, ◌-◌, ◌*◌, ◌%◌, ◌≤◌, ◌<◌, ◌≡◌, refl, ap, ◌∙◌, true, false, ◌==◌, Bool-cases, inl, inr,
  arith,
}
use bilkent_os_projects.Mfs.Bitmap.{Bytes, mfs_get_bit}
use bilkent_os_projects.Mfs.Bitmap.Laws.{AreBytes}
use bilkent_os_projects.Mfs.Device.{Fs, Result, done, error, enospc, mfs_read_block}
use bilkent_os_projects.Mfs.Alloc.{allocate_block}
use bilkent_os_projects.Mfs.Alloc.Laws.{Writes, allocate_block_lem}
use bilkent_os_projects.Mfs.Alloc.Search.{IsFull, first_free_lem}
use bilkent_os_projects.Mfs.Inode.{get32, put32, write32}
use bilkent_os_projects.Mfs.Inode.Words.{splice-inside, splice-outside}
use bilkent_os_projects.Mfs.Create.Laws.{Reliable, tick}
use bilkent_os_projects.Mfs.Content.Append.{Target, find_target}

-- Word k of an index block.
abbrev pub word : Bytes → ℕ → ℕ
word idx k = get32 idx (4 * k)

pub word-write32_self :
    (idx : Bytes) (k v : ℕ) → v < 4294967296 → word (write32 idx (4 * k) v) k ≡ v
word-write32_self idx k v h =
    let o = 4 * k in
    let first : write32 idx o v o ≡ v % 256 =
      ap (write32 idx o v) (omega arith) ∙ splice-inside idx (put32 v) o 4 0 (omega arith) in
    let at1 = splice-inside idx (put32 v) o 4 1 (omega arith) in
    let at2 = splice-inside idx (put32 v) o 4 2 (omega arith) in
    let at3 = splice-inside idx (put32 v) o 4 3 (omega arith) in omega arith

pub word-write32_ne :
    (idx : Bytes) (k j v : ℕ) → (j == k) ≡ false → word (write32 idx (4 * k) v) j ≡ word idx j
word-write32_ne idx k j v h =
    let o = 4 * k in
    let at0 = splice-outside idx (put32 v) o 4 (4 * j) (ground arith) in
    let at1 = splice-outside idx (put32 v) o 4 (4 * j + 1) (ground arith) in
    let at2 = splice-outside idx (put32 v) o 4 (4 * j + 2) (ground arith) in
    let at3 = splice-outside idx (put32 v) o 4 (4 * j + 3) (ground arith) in omega arith

-- A data block that is marked in the bitmap.
abbrev pub IsTaken : Fs → ℕ → Type 0
IsTaken fs n = (6 ≤ n) × ((mfs_get_bit (fs.disk 1) n == 0) ≡ false)

-- The blocks of a file: the index block and the blocks that its words name are taken and all different.
pub record IsLaidOut (fs : Fs) (ib : ℕ) (idx : Bytes) : Type 0 where
  pub reliable : Reliable fs
  pub bytes : AreBytes (fs.disk 1)
  pub few : fs.block_count < 4294967296
  pub index : IsTaken fs ib
  pub taken : (k : ℕ) → k < 4096 → (word idx k == 0) ≡ false → IsTaken fs (word idx k)
  pub apart : (k : ℕ) → k < 4096 → (word idx k == ib) ≡ false
  pub distinct :
      (j k : ℕ)
      → j < 4096
      → k < 4096
      → (j == k) ≡ false
      → (word idx j == 0) ≡ false
      → (word idx j == word idx k) ≡ false

-- A block that was free before.
pub record IsFresh (fs fs' : Fs) (i : ℕ) : Type 0 where
  pub above : 6 ≤ i
  pub small : i < 4294967296
  pub free : (mfs_get_bit (fs.disk 1) i == 0) ≡ true
  pub writes : Writes 1 i true fs fs'

-- What a round finds for the bytes: a block of its own, a fresh one, or none.
pub data Finds (fs : Fs) (n : ℕ) (r : Result Target × Fs) : Type 0 where
  finds_old :
      (n == 0) ≡ false
      → r ≡ (done (record { data_blk = n; blk_buf = fs.disk n; newly_allocated = false }), tick fs)
      → Finds fs n r
  finds_fresh :
      (i : ℕ) (fs' : Fs)
      → (n == 0) ≡ true
      → IsFresh fs fs' i
      → r ≡ (done (record { data_blk = i; blk_buf = λ k. 0; newly_allocated = true }), fs')
      → Finds fs n r
  finds_none : (n == 0) ≡ true → r ≡ (error enospc, tick fs) → Finds fs n r

pub allocate_block-IsFull :
    (fs : Fs)
    → Reliable fs
    → IsFull (fs.disk 1) 6 (fs.block_count - 6)
    → allocate_block fs ≡ (error enospc, tick fs)
unfolding allocate_block mfs_read_block
allocate_block-IsFull fs works full = elim (first_free_lem (fs.disk 1) 6 (fs.block_count - 6)) [
  | inl (i, e, f) ↦ cc (full i f.above f.below, f.free)
  | inr (e, _) ↦ rw (allocate_block, mfs_read_block, works fs.clock 1, e) refl
]

pub find_target-Finds :
    (fs : Fs) (n : ℕ)
    → Reliable fs
    → AreBytes (fs.disk 1)
    → fs.block_count < 4294967296
    → Finds fs n (find_target fs n)
unfolding find_target mfs_read_block
find_target-Finds fs n works bytes few = elim (Bool-cases (n == 0)) [
  | inr old ↦ finds_old old (rw (find_target, old, mfs_read_block, works fs.clock n) refl)
  | inl new ↦ elim (allocate_block_lem fs (λ k. works k 1) bytes) [
    | inl (i, f, took) ↦
        let fs' = (allocate_block fs).1 in
        let above = f.above in
        let below = f.below in
        finds_fresh i fs' new
          (record { above = above; small = omega arith; free = f.free; writes = took.writes })
          (rw (find_target, new, took.answer) refl)
    | inr (full, refused) ↦
        finds_none new
          (let e = allocate_block-IsFull fs works full in rw (find_target, new, e, e) refl)
  ]
]
