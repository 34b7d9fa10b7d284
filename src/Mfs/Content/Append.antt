-- ===== src/Mfs/Content/Append.antt =====
-- `mfs_write` of Project4/mfs.c (lines 499-625), which appends.
use bilkent_os_projects.Base.{
  ℕ, zero, suc, ◌+◌, ◌-◌, ◌*◌, ◌%◌, Bool, true, false, not, ◌||◌, Option, none, some, List, [], ◌∷◌,
  ◌==◌, ltb, leb, if◌then◌else◌,
}
use bilkent_os_projects.Mfs.Bitmap.{Bytes}
use bilkent_os_projects.Mfs.Device.{
  Fs, Errno, Result, done, error, eio, einval, eopnotsupp, efbig, mfs_read_block, mfs_write_block,
}
use bilkent_os_projects.Mfs.Alloc.{allocate_block, free_block}
use bilkent_os_projects.Mfs.Inode.{Inode, splice, from, get32, write32, read_inode, write_inode}
use bilkent_os_projects.Mfs.Dir.{path_name, find_dir_entry}
use bilkent_os_projects.Mfs.Content.{block_size, block_idx, block_off, smaller, partial_count}

-- `rc` (`none` for 0), the disk, `idx_data`, `inode.block_count` and `bytes_written`.
pub record WriteState : Type 0 where
  pub rc : Option Errno
  pub fs : Fs
  pub idx_data : Bytes
  pub block_count : ℕ
  pub bytes_written : ℕ

-- Where the bytes of a round go: the block, what it holds (zeros if it is new), and whether it is new.
pub record Target : Type 0 where
  pub data_blk : ℕ
  pub blk_buf : Bytes
  pub newly_allocated : Bool

-- Lines 573-591.
unfoldable pub find_target : Fs → ℕ → Result Target × Fs
find_target fs data_blk =
    let (taken, fs₁) = allocate_block fs in
    let (block, fs₂) = mfs_read_block fs data_blk in
    let fresh : Result Target × Fs = elim taken [
      | error e ↦ (error e, fs₁)
      | done b ↦ (done (record { data_blk = b; blk_buf = λ k. 0; newly_allocated = true }), fs₁)
    ] in
    let old : Result Target × Fs = elim block [
      | none ↦ (error eio, fs₂)
      | some b ↦ (done (record { data_blk = data_blk; blk_buf = b; newly_allocated = false }), fs₂)
    ] in
    if data_blk == 0 then fresh else old

-- Lines 592-600: the block with the new bytes goes to the disk, `true` if that works.
unfoldable pub store_block : Fs → Target → Bytes → ℕ → ℕ → ℕ → Bool × Fs
store_block fs t buf place bytes_written to_write =
    let (ok, fs₁) =
      mfs_write_block fs t.data_blk
        (splice t.blk_buf (block_off place) to_write (from buf bytes_written)) in
    let undone = (free_block fs₁ t.data_blk).1 in
    if ok then (true, fs₁) else (false, if t.newly_allocated then undone else fs₁)

abbrev pub stopped : Errno → Fs → WriteState → WriteState
stopped e fs w = record {
  rc = some e;
  fs = fs;
  idx_data = w.idx_data;
  block_count = w.block_count;
  bytes_written = w.bytes_written;
}

-- The state behind a round that wrote: lines 602-607.
abbrev pub advance : WriteState → Fs → Target → ℕ → ℕ → WriteState
advance w fs t place to_write = record {
  rc = none;
  fs = fs;
  idx_data =
      if t.newly_allocated then write32 w.idx_data (4 * block_idx place) t.data_blk else w.idx_data;
  block_count = if t.newly_allocated then (w.block_count + 1) % 4294967296 else w.block_count;
  bytes_written = w.bytes_written + to_write;
}

-- One round of the loop. A round that stops it sets `rc`.
unfoldable pub write_round : WriteState → Bytes → ℕ → ℕ → WriteState
write_round w buf offset size =
    let place = offset + w.bytes_written in
    let to_write = smaller (block_size - block_off place) (size - w.bytes_written) in
    let (found, fs₁) = find_target w.fs (get32 w.idx_data (4 * block_idx place)) in
    let stored : WriteState = elim found [
      | error e ↦ stopped e fs₁ w
      | done t ↦
          let (ok, fs₂) = store_block fs₁ t buf place w.bytes_written to_write in
          if ok then advance w fs₂ t place to_write else stopped eio fs₂ w
    ] in
    if leb 4096 (block_idx place) then stopped efbig w.fs w else stored

-- The loop. Each round that does not stop it writes at least one byte, so the fuel is the number of
-- bytes.
unfoldable pub write_loop : ℕ → WriteState → Bytes → ℕ → ℕ → WriteState
write_loop zero w buf offset size = w
write_loop (suc fuel) w buf offset size =
    let next = write_round w buf offset size in
    let rest = write_loop fuel next buf offset size in
    let after : WriteState = elim next.rc [ none ↦ rest | some e ↦ next ] in
    if leb size w.bytes_written then w else after

-- The index block: its number, its words, and whether it is new (lines 536-554).
pub record IndexBlock : Type 0 where
  pub index_block : ℕ
  pub idx_data : Bytes
  pub allocated_index : Bool

unfoldable pub load_index : Fs → ℕ → Result IndexBlock × Fs
load_index fs index_block =
    let (taken, fs₁) = allocate_block fs in
    let (block, fs₂) = mfs_read_block fs index_block in
    let fresh : Result IndexBlock × Fs = elim taken [
      | error e ↦ (error e, fs₁)
      | done ib ↦
          let (ok, fs₃) = mfs_write_block fs₁ ib (λ k. 0) in
          let undone = (free_block fs₃ ib).1 in
          if ok
          then (done (record { index_block = ib; idx_data = λ k. 0; allocated_index = true }), fs₃)
          else (error eio, undone)
    ] in
    let old : Result IndexBlock × Fs = elim block [
      | none ↦ (error eio, fs₂)
      | some b ↦
          (done (record { index_block = index_block; idx_data = b; allocated_index = false }), fs₂)
    ] in
    if index_block == 0 then fresh else old

-- The inode that goes back to the table.
abbrev pub grown_inode : Inode → ℕ → WriteState → ℕ → Inode
grown_inode inode index_block w now = record inode {
  size = (inode.size + w.bytes_written) % 4294967296;
  block_count = w.block_count;
  index_block = index_block;
  mtime = now;
}

abbrev pub rc_answer : Option Errno → Result ℕ
rc_answer none = done 0
rc_answer (some e) = error e

-- Lines 610-624, behind the loop.
unfoldable pub finish_write : Inode → IndexBlock → WriteState → ℕ → Result ℕ × Fs
finish_write inode index w now =
    let (ok, fs₁) = mfs_write_block w.fs index.index_block w.idx_data in
    let (rc, fs₂) = write_inode fs₁ (grown_inode inode index.index_block w now) in
    let failed = partial_count w.bytes_written eio in
    let answer : Result ℕ =
      if ltb 0 w.bytes_written then done w.bytes_written else rc_answer w.rc in
    let stored : Result ℕ × Fs = elim rc [ error e ↦ (failed, fs₂) | done _ ↦ (answer, fs₂) ] in
    if not (ltb 0 w.bytes_written || index.allocated_index)
    then (answer, w.fs)
    else if not ok
    then (failed, fs₁)
    else stored

-- Behind the lookup of the inode.
unfoldable pub append_file : Fs → Inode → Bytes → ℕ → ℕ → ℕ → Result ℕ × Fs
append_file fs inode buf size offset now =
    let (rc, fs₁) = load_index fs inode.index_block in
    let stored : Result ℕ × Fs = elim rc [
      | error e ↦ (error e, fs₁)
      | done index ↦
          let start : WriteState = record {
            rc = none;
            fs = fs₁;
            idx_data = index.idx_data;
            block_count = inode.block_count;
            bytes_written = 0;
          } in
          finish_write inode index (write_loop size start buf offset size) now
    ] in
    if not (offset == inode.size) then (error eopnotsupp, fs) else stored

-- `now` is what `time` returns.
unfoldable pub mfs_write : Fs → List ℕ → Bytes → ℕ → ℕ → ℕ → Result ℕ × Fs
mfs_write fs path buf size offset now = if size == 0 then (done 0, fs) else elim (path_name path) [
  | none ↦ (error einval, fs)
  | some [] ↦ (error einval, fs)
  | some (c ∷ name) ↦
      let (rc, fs₁) = find_dir_entry fs (c ∷ name) in
      elim rc [
        | error e ↦ (error e, fs₁)
        | done entry ↦
            let (rc', fs₂) = read_inode fs₁ entry.inode_no in
            elim rc' [
              | error e ↦ (error e, fs₂)
              | done inode ↦ append_file fs₂ inode buf size offset now
            ]
      ]
]
