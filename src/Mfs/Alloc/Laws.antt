-- ===== src/Mfs/Alloc/Laws.antt =====
-- What taking and giving back inodes and blocks does to the bitmaps of Project4/mfs.c.
use bilkent_os_projects.Base.{
  ℕ, ◌+◌, ◌-◌, ◌≤◌, ◌<◌, ◌≡◌, refl, sym, subst, ◌∙◌, Bool, true, false, ◌||◌, ◌==◌, ltb, leb,
  if◌then◌else◌, ◌⊎◌, inl, inr, Bool-cases, arith,
}
use bilkent_os_projects.Mfs.Bitmap.{mfs_get_bit, mfs_set_bit}
use bilkent_os_projects.Mfs.Bitmap.Byte.{one_if}
use bilkent_os_projects.Mfs.Bitmap.Laws.{AreBytes, mfs_get_bit-mfs_set_bit, mfs_set_bit-AreBytes}
use bilkent_os_projects.Mfs.Device.{
  Fs, put, Errno, done, error, enospc, einval, inode_bitmap_block, block_bitmap_block,
  mfs_read_block, mfs_write_block,
}
use bilkent_os_projects.Mfs.Alloc.{Answer, allocate_inode, free_inode, allocate_block, free_block}
use bilkent_os_projects.Mfs.Alloc.Search.{IsFull, IsFirst, first_free_lem}

-- The device never fails on block n.
abbrev pub Works : Fs → ℕ → Type 0
Works fs n = (k : ℕ) → fs.works k n ≡ true

-- An operation writes bit i of the bitmap in block n and nothing else.
pub record Writes (n i : ℕ) (v : Bool) (fs fs' : Fs) : Type 0 where
  pub bits :
      (j : ℕ)
      → mfs_get_bit (fs'.disk n) j ≡ (if j == i then one_if v else mfs_get_bit (fs.disk n) j)
  pub bytes : AreBytes (fs'.disk n)
  pub others : (m : ℕ) → (m == n) ≡ false → fs'.disk m ≡ fs.disk m
  pub blocks : fs'.block_count ≡ fs.block_count
  pub device : (k m : ℕ) → fs'.works k m ≡ fs.works k m

put-Writes :
    (fs : Fs) (n i : ℕ) (v : Bool)
    → AreBytes (fs.disk n)
    → Writes n i v fs (put (record fs { clock = fs.clock + 1 }) n (mfs_set_bit (fs.disk n) i v))
put-Writes fs n i v bytes =
    let here : (n == n) ≡ true = ground arith in
    record {
      bits = λ j. rw here (mfs_get_bit-mfs_set_bit (fs.disk n) i j v bytes);
      bytes = rw here (mfs_set_bit-AreBytes (fs.disk n) i v bytes);
      others = λ m e. rw e refl;
      blocks = refl;
      device = λ k m. refl;
    }

-- What an operation answers, and the bit that it writes.
pub record Took (n i : ℕ) (v : Bool) (x : ℕ) (fs : Fs) (r : Answer × Fs) : Type 0 where
  pub answer : r.0 ≡ done x
  pub writes : Writes n i v fs r.1

-- An operation that finds no room leaves the disk as it is.
pub record Refused (e : Errno) (fs : Fs) (r : Answer × Fs) : Type 0 where
  pub answer : r.0 ≡ error e
  pub same : r.1.disk ≡ fs.disk

-- On a device that works, `allocate_inode` takes the first free inode behind that of the root and
-- answers its number, and otherwise, when all are taken, that there is no space; then the disk
-- stays as it is.
pub allocate_inode_lem :
    (fs : Fs)
    → Works fs inode_bitmap_block
    → AreBytes (fs.disk inode_bitmap_block)
    → ((i : ℕ) × IsFirst (fs.disk inode_bitmap_block) 1 255 i
        × Took inode_bitmap_block i true (i + 1) fs (allocate_inode fs))
      ⊎ (IsFull (fs.disk inode_bitmap_block) 1 255 × Refused enospc fs (allocate_inode fs))
unfolding allocate_inode mfs_read_block mfs_write_block
allocate_inode_lem fs works bytes = elim (first_free_lem (fs.disk 2) 1 255) [
  | inl (i, e, f) ↦ inl (
    i,
    f,
    rw (allocate_inode, mfs_read_block, works fs.clock, e, mfs_write_block, works (fs.clock + 1))
        (record { answer = refl; writes = put-Writes fs 2 i true bytes }),
  )
  | inr (e, full) ↦ inr (
    full,
    rw (allocate_inode, mfs_read_block, works fs.clock, e) (record { answer = refl; same = refl }),
  )
]

-- The same for a data block: it is the first free one from block 6 on that the disk has.
pub allocate_block_lem :
    (fs : Fs)
    → Works fs block_bitmap_block
    → AreBytes (fs.disk block_bitmap_block)
    → ((i : ℕ) × IsFirst (fs.disk block_bitmap_block) 6 (fs.block_count - 6) i
        × Took block_bitmap_block i true i fs (allocate_block fs))
      ⊎ (IsFull (fs.disk block_bitmap_block) 6 (fs.block_count - 6)
          × Refused enospc fs (allocate_block fs))
unfolding allocate_block mfs_read_block mfs_write_block
allocate_block_lem fs works bytes = elim (first_free_lem (fs.disk 1) 6 (fs.block_count - 6)) [
  | inl (i, e, f) ↦ inl (
    i,
    f,
    rw (allocate_block, mfs_read_block, works fs.clock, e, mfs_write_block, works (fs.clock + 1))
        (record { answer = refl; writes = put-Writes fs 1 i true bytes }),
  )
  | inr (e, full) ↦ inr (
    full,
    rw (allocate_block, mfs_read_block, works fs.clock, e) (record { answer = refl; same = refl }),
  )
]

-- On a device that works, `free_inode` gives back any inode but the root's.
pub free_inode_lem :
    (fs : Fs) (inode_no : ℕ)
    → Works fs inode_bitmap_block
    → AreBytes (fs.disk inode_bitmap_block)
    → 1 < inode_no
    → inode_no ≤ 256
    → Took inode_bitmap_block (inode_no - 1) false 0 fs (free_inode fs inode_no)
unfolding free_inode mfs_read_block mfs_write_block
free_inode_lem fs inode_no works bytes above below =
    let test : (leb inode_no 1 || ltb 256 inode_no) ≡ false = ground arith in
    rw (free_inode, mfs_read_block, works fs.clock, test, mfs_write_block, works (fs.clock + 1))
      (record { answer = refl; writes = put-Writes fs 2 (inode_no - 1) false bytes })

-- On a device that works, `free_block` gives back any data block of the disk.
pub free_block_lem :
    (fs : Fs) (block_no : ℕ)
    → Works fs block_bitmap_block
    → AreBytes (fs.disk block_bitmap_block)
    → 6 ≤ block_no
    → block_no < fs.block_count
    → Took block_bitmap_block block_no false 0 fs (free_block fs block_no)
unfolding free_block mfs_read_block mfs_write_block
free_block_lem fs block_no works bytes above below =
    let test : (ltb block_no 6 || leb fs.block_count block_no) ≡ false = ground arith in
    rw (free_block, mfs_read_block, works fs.clock, test, mfs_write_block, works (fs.clock + 1))
      (record { answer = refl; writes = put-Writes fs 1 block_no false bytes })

-- Superblock, bitmaps, inode table and root directory are never given back as data blocks.
pub free_block_refused :
    (fs : Fs) (block_no : ℕ) → block_no < 6 → free_block fs block_no ≡ (error einval, fs)
unfolding free_block
free_block_refused fs block_no low =
    let test : (ltb block_no 6 || leb fs.block_count block_no) ≡ true = ground arith in
    rw (free_block, test) refl

same_number : {m n : ℕ} → done m ≡ done n → m ≡ n
same_number {m} {n} e = cc e

zero_bit : {m : ℕ} → (m == 0) ≡ true → 0 ≡ m
zero_bit e = ground arith

-- An inode that was taken and is given back leaves every bit as it was.
pub free_inode-allocate_inode :
    (fs : Fs) (x : ℕ)
    → Works fs inode_bitmap_block
    → AreBytes (fs.disk inode_bitmap_block)
    → (allocate_inode fs).0 ≡ done x
    → (j : ℕ)
    → mfs_get_bit ((free_inode (allocate_inode fs).1 x).1.disk inode_bitmap_block) j
      ≡ mfs_get_bit (fs.disk inode_bitmap_block) j
free_inode-allocate_inode fs x works bytes e j = elim (allocate_inode_lem fs works bytes) [
  | inr (_, refused) ↦ cc (refused.answer, e)
  | inl (i, f, took) ↦
      let number : x ≡ i + 1 = same_number (sym e ∙ took.answer) in
      let above = f.above in
      let below = f.below in
      let w = took.writes in
      let back =
        free_inode_lem (allocate_inode fs).1 x (λ k. w.device k 2 ∙ works k) w.bytes (omega arith)
          (omega arith) in
      let mid = (allocate_inode fs).1 in
      let place : x - 1 ≡ i = omega arith in
      let freed =
        subst
          (λ p.
            mfs_get_bit ((free_inode mid x).1.disk 2) j
            ≡ (if j == p then 0 else mfs_get_bit (mid.disk 2) j))
          place (back.writes.bits j) in
      elim (Bool-cases (j == i)) [
        | inl same ↦
            let here : i ≡ j = ground arith in
            let was = subst (λ m. (mfs_get_bit (fs.disk 2) m == 0) ≡ true) here f.free in
            rw same at freed ∙ zero_bit was
        | inr other ↦ rw other at freed ∙ w.bits j ∙ rw other refl
      ]
]
