-- ===== src/Mfs/Format.antt =====
-- `main` of Project4/make_mfs.c (lines 59-157), which formats a disk, and `load_superblock` of
-- Project4/mfs.c (lines 645-661). Child: `Laws` (what a formatted disk looks like).
pub mod Laws
use bilkent_os_projects.Base.{
  ℕ, zero, suc, ◌+◌, ◌/◌, ◌%◌, Bool, true, false, not, ◌&&◌, ◌||◌, Option, none, some, List, [],
  ◌∷◌, ◌==◌, ltb, if◌then◌else◌,
}
use bilkent_os_projects.Mfs.Bitmap.{Bytes, mfs_set_bit}
use bilkent_os_projects.Mfs.Device.{Fs, mfs_read_block, mfs_write_block}
use bilkent_os_projects.Mfs.Inode.{Inode, splice, get32, write32, encode_inode}
use bilkent_os_projects.Mfs.Create.{new_entry}

-- `memset(block, 0, sizeof(block))`
abbrev pub zeros : Bytes
zeros k = 0

-- The size that `fstat` answers, in blocks.
abbrev pub disk_block_count : Option ℕ → ℕ
disk_block_count none = 0
disk_block_count (some size) = size / 16384 % 4294967296

-- 0x4d465334 is MFS_MAGIC.
abbrev pub superblock_of : ℕ → Bytes
superblock_of count =
    let ids = write32 (write32 (write32 zeros 0 1296454452) 4 16384) 8 count in
    let table = write32 (write32 (write32 ids 12 256) 16 3) 20 5 in
    write32 (write32 table 24 6) 28 31

-- The loop that marks the first n blocks.
unfoldable pub mark_first : ℕ → Bytes → Bytes
mark_first zero b = b
mark_first (suc n) b = mfs_set_bit (mark_first n b) n true

-- S_IFDIR | 0755 is 16877.
abbrev pub root : ℕ → Inode
root now = record {
  inode_no = 1;
  mode = 16877;
  size = 128;
  block_count = 1;
  index_block = 5;
  ctime = now;
  mtime = now;
  atime = now;
  rest = zeros;
}

-- The entries "." and "..".
abbrev pub first_entries : Bytes
first_entries =
    splice (splice zeros 0 64 (new_entry 1 (46 ∷ []))) 64 64 (new_entry 1 (46 ∷ 46 ∷ []))

-- What is written where, in this order.
abbrev pub layout : ℕ → ℕ → List (ℕ × Bytes)
layout count now =
    (0, superblock_of count)
    ∷ (1, mark_first 6 zeros)
    ∷ (2, mfs_set_bit zeros 0 true)
    ∷ (3, splice zeros 0 128 (encode_inode (root now)))
    ∷ (4, zeros)
    ∷ (5, first_entries)
    ∷ []

-- The first write that fails ends the program with exit code 1.
unfoldable pub write_all : Fs → List (ℕ × Bytes) → ℕ × Fs
write_all fs [] = (0, fs)
write_all fs ((n, b) ∷ ws) =
    let (ok, fs₁) = mfs_write_block fs n b in
    let rest = write_all fs₁ ws in if ok then rest else (1, fs₁)

-- `opens` says whether `open` succeeds, `size` is what `fstat` answers, `now` what `time` does.
unfoldable pub make_mfs : Fs → ℕ → Bool → Option ℕ → ℕ → ℕ × Fs
make_mfs fs argc opens size now =
    let count = disk_block_count size in
    if not (argc == 2) || not opens || ltb count 128 || ltb 4096 count
    then (1, fs)
    else write_all fs (layout count now)

-- `true` is 0: the disk is one of this program, and its superblock is kept.
unfoldable pub load_superblock : Fs → Bool × Fs
load_superblock fs =
    let (block, fs₁) = mfs_read_block fs 0 in
    elim block [
      | none ↦ (false, fs₁)
      | some b ↦ (
        get32 b 0 == 1296454452 && get32 b 4 == 16384 && get32 b 12 == 256,
        record fs₁ { block_count = get32 b 8 },
      )
    ]
