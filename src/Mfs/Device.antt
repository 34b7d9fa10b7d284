-- ===== src/Mfs/Device.antt =====
-- The disk of Project4/mfs.c: `mfs_read_block` and `mfs_write_block` (lines 18-38), and the numbers
-- of Project4/mfs.h.
use bilkent_os_projects.Base.{ℕ, ◌+◌, Bool, true, false, Option, none, some, ◌==◌, if◌then◌else◌}
use bilkent_os_projects.Mfs.Bitmap.{Bytes}

abbrev pub inode_count : ℕ
inode_count = 256

abbrev pub root_inode : ℕ
root_inode = 1

abbrev pub block_bitmap_block : ℕ
block_bitmap_block = 1

abbrev pub inode_bitmap_block : ℕ
inode_bitmap_block = 2

abbrev pub root_dir_block : ℕ
root_dir_block = 5

abbrev pub first_data_block : ℕ
first_data_block = 6

-- The negative error codes that the operations return.
pub data Errno : Type 0 where
  eio enospc einval enoent eexist enametoolong eopnotsupp efbig : Errno

pub data Result (A : Type 0) : Type 0 where
  done : A → Result A
  error : Errno → Result A

-- The disk by block, `superblock.block_count`, and what the operating system answers: operation
-- number k on a block works or not, and a write that fails leaves some bytes behind.
pub record Fs : Type 0 where
  pub disk : ℕ → Bytes
  pub block_count : ℕ
  pub clock : ℕ
  pub works : ℕ → ℕ → Bool
  pub leaves : ℕ → Bytes

abbrev pub put : Fs → ℕ → Bytes → Fs
put fs n b = record fs { disk = λ m. if m == n then b else fs.disk m; clock = fs.clock + 1 }

unfoldable pub mfs_read_block : Fs → ℕ → Option Bytes × Fs
mfs_read_block fs n =
    (if fs.works fs.clock n then some (fs.disk n) else none, record fs { clock = fs.clock + 1 })

-- `true` is 0, `false` is -1.
unfoldable pub mfs_write_block : Fs → ℕ → Bytes → Bool × Fs
mfs_write_block fs n b =
    if fs.works fs.clock n then (true, put fs n b) else (false, put fs n (fs.leaves fs.clock))
