-- ===== src/Mfs/Alloc.antt =====
-- `allocate_inode`, `free_inode`, `allocate_block` and `free_block` of Project4/mfs.c (lines
-- 144-217). Children: `Search` (the loop), `Laws` (what the operations do).
pub mod Search
pub mod Laws
use bilkent_os_projects.Base.{
  ℕ, zero, suc, ◌+◌, ◌-◌, Bool, true, false, ◌||◌, Option, none, some, ◌==◌, ltb, leb,
  if◌then◌else◌,
}
use bilkent_os_projects.Mfs.Bitmap.{Bytes, mfs_get_bit, mfs_set_bit}
use bilkent_os_projects.Mfs.Device.{
  Fs, Errno, Result, done, error, eio, enospc, einval, inode_count, root_inode, block_bitmap_block,
  inode_bitmap_block, first_data_block, mfs_read_block, mfs_write_block,
}

abbrev pub Answer : Type 0
Answer = Result ℕ

-- `for (i = ...; ...; i++) if (!mfs_get_bit(bitmap, i))`: from i on, for the rounds left.
unfoldable pub first_free : Bytes → ℕ → ℕ → Option ℕ
first_free bitmap i zero = none
first_free bitmap i (suc n) =
    let rest = first_free bitmap (suc i) n in if mfs_get_bit bitmap i == 0 then some i else rest

-- `mfs_write_block(...) == 0 ? 0 : -EIO`
abbrev pub written : ℕ → Bool × Fs → Answer × Fs
written n r = (if r.0 then done n else error eio, r.1)

unfoldable pub allocate_inode : Fs → Answer × Fs
allocate_inode fs =
    let (bitmap, fs₁) = mfs_read_block fs inode_bitmap_block in
    elim bitmap [
      | none ↦ (error eio, fs₁)
      | some b ↦ elim (first_free b 1 (inode_count - 1)) [
        | none ↦ (error enospc, fs₁)
        | some i ↦ written (i + 1) (mfs_write_block fs₁ inode_bitmap_block (mfs_set_bit b i true))
      ]
    ]

-- The answer 0 is `done 0`.
unfoldable pub free_inode : Fs → ℕ → Answer × Fs
free_inode fs inode_no =
    let (bitmap, fs₁) = mfs_read_block fs inode_bitmap_block in
    if leb inode_no root_inode || ltb inode_count inode_no
    then (error einval, fs)
    else elim bitmap [
      | none ↦ (error eio, fs₁)
      | some b ↦
          written 0 (mfs_write_block fs₁ inode_bitmap_block (mfs_set_bit b (inode_no - 1) false))
    ]

unfoldable pub allocate_block : Fs → Answer × Fs
allocate_block fs =
    let (bitmap, fs₁) = mfs_read_block fs block_bitmap_block in
    elim bitmap [
      | none ↦ (error eio, fs₁)
      | some b ↦ elim (first_free b first_data_block (fs.block_count - first_data_block)) [
        | none ↦ (error enospc, fs₁)
        | some i ↦ written i (mfs_write_block fs₁ block_bitmap_block (mfs_set_bit b i true))
      ]
    ]

unfoldable pub free_block : Fs → ℕ → Answer × Fs
free_block fs block_no =
    let (bitmap, fs₁) = mfs_read_block fs block_bitmap_block in
    if ltb block_no first_data_block || leb fs.block_count block_no
    then (error einval, fs)
    else elim bitmap [
      | none ↦ (error eio, fs₁)
      | some b ↦ written 0 (mfs_write_block fs₁ block_bitmap_block (mfs_set_bit b block_no false))
    ]
