-- ===== src/Mfs/Content.antt =====
-- `mfs_readdir`, `mfs_read` and `mfs_write` of Project4/mfs.c (lines 259-286 and 420-625). A file has an
-- index block of 4096 block numbers. An offset is not negative, as FUSE hands it over. The int that
-- is answered never overflows, since no more than 4096 blocks are read or written. Children: `Names`
-- (what is listed); `Reading` (the loop of `mfs_read`) and `Lookup` (the whole); `Append` (`mfs_write`),
-- `Layout` (the blocks of a file), `Writing` and `Fresh` (a round on an old or a new block), `Loop`,
-- `Outcome` (what is stored at the end), `Answer` (the index block), `Written` (the whole); `RoundTrip`;
-- `Freed` (the blocks that `mfs_unlink` gives back) and `Unlink` (the whole).
pub mod Names
pub mod Reading
pub mod Lookup
pub mod Append
pub mod Layout
pub mod Writing
pub mod Fresh
pub mod Loop
pub mod Outcome
pub mod Answer
pub mod Written
pub mod RoundTrip
pub mod Freed
pub mod Unlink
use bilkent_os_projects.Base.{
  ℕ, zero, suc, ◌+◌, ◌-◌, ◌*◌, ◌/◌, ◌%◌, Bool, true, false, not, ◌&&◌, ◌||◌, Option, none, some,
  List, [], ◌∷◌, ◌==◌, ltb, leb, if◌then◌else◌,
}
use bilkent_os_projects.Mfs.Bitmap.{Bytes}
use bilkent_os_projects.Mfs.Device.{
  Fs, Errno, Result, done, error, eio, enoent, einval, eopnotsupp, efbig, mfs_read_block,
  mfs_write_block,
}
use bilkent_os_projects.Mfs.Alloc.{allocate_block, free_block}
use bilkent_os_projects.Mfs.Inode.{Inode, splice, from, get32, write32, read_inode, write_inode}
use bilkent_os_projects.Mfs.Dir.{
  path_name, entry_at, entry_name, is_used, read_root_dir, Entry, find_dir_entry,
}

-- The names that go to `filler`, from entry i on, for the rounds left.
unfoldable pub used_names : Bytes → ℕ → ℕ → List Bytes
used_names b i zero = []
used_names b i (suc n) =
    let rest = used_names b (suc i) n in
    if is_used (entry_at b i) then entry_name (entry_at b i) ∷ rest else rest

-- `strcmp(path, "/") == 0`
abbrev pub is_root_path : List ℕ → Bool
is_root_path [] = false
is_root_path (c ∷ []) = c == 47
is_root_path (c ∷ d ∷ path) = false

unfoldable pub mfs_readdir : Fs → List ℕ → Result (List Bytes) × Fs
mfs_readdir fs path =
    let (rc, fs₁) = read_root_dir fs in
    if not (is_root_path path)
    then (error enoent, fs)
    else (elim rc [ error e ↦ error e | done b ↦ done (used_names b 0 256) ], fs₁)

abbrev pub block_size : ℕ
block_size = 16384

-- The number of the block and the place in it, for a byte of a file.
abbrev pub block_idx : ℕ → ℕ
block_idx place = place / block_size % 4294967296

abbrev pub block_off : ℕ → ℕ
block_off place = place % block_size

abbrev pub smaller : ℕ → ℕ → ℕ
smaller a b = if ltb b a then b else a

-- What was read: the answer, the buffer, the disk.
pub record ReadState : Type 0 where
  pub answer : Result ℕ
  pub buf : Bytes
  pub fs : Fs

-- An error after some bytes answers their number.
abbrev pub partial_count : ℕ → Errno → Result ℕ
partial_count n e = if ltb 0 n then done n else error e

-- The loop of `mfs_read`. Each round reads at least one byte, so the fuel is the number of bytes.
unfoldable pub read_loop : ℕ → Fs → Bytes → Bytes → ℕ → ℕ → ℕ → ReadState
read_loop zero fs idx_data buf offset total bytes_read = record {
  answer = done bytes_read;
  buf = buf;
  fs = fs;
}
read_loop (suc fuel) fs idx_data buf offset total bytes_read =
    let place = offset + bytes_read in
    let to_read = smaller (block_size - block_off place) (total - bytes_read) in
    let block_no = get32 idx_data (4 * block_idx place) in
    let (block, fs₁) = mfs_read_block fs block_no in
    let hole =
      read_loop fuel fs idx_data (splice buf bytes_read to_read (λ k. 0)) offset total
        (bytes_read + to_read) in
    let stop : ReadState = record { answer = partial_count bytes_read eio; buf = buf; fs = fs } in
    let stored : ReadState = elim block [
      | none ↦ record { answer = partial_count bytes_read eio; buf = buf; fs = fs₁ }
      | some b ↦
          read_loop fuel fs₁ idx_data (splice buf bytes_read to_read (from b (block_off place)))
            offset total (bytes_read + to_read)
    ] in
    if leb total bytes_read
    then record { answer = done bytes_read; buf = buf; fs = fs }
    else if leb 4096 (block_idx place)
    then stop
    else if block_no == 0
    then hole
    else stored

-- Behind the lookup of the inode.
unfoldable pub read_file : Fs → Inode → Bytes → ℕ → ℕ → ReadState
read_file fs inode buf size offset =
    let total = smaller size (inode.size - offset) in
    let (block, fs₁) = mfs_read_block fs inode.index_block in
    let nothing : ReadState = record { answer = done 0; buf = buf; fs = fs } in
    let stored : ReadState = elim block [
      | none ↦ record { answer = error eio; buf = buf; fs = fs₁ }
      | some idx_data ↦ read_loop total fs₁ idx_data buf offset total 0
    ] in
    if leb inode.size offset then nothing else if inode.index_block == 0 then nothing else stored

unfoldable pub mfs_read : Fs → List ℕ → Bytes → ℕ → ℕ → ReadState
mfs_read fs path buf size offset =
    if size == 0 then record { answer = done 0; buf = buf; fs = fs } else elim (path_name path) [
      | none ↦ record { answer = error einval; buf = buf; fs = fs }
      | some [] ↦ record { answer = error einval; buf = buf; fs = fs }
      | some (c ∷ name) ↦
          let (rc, fs₁) = find_dir_entry fs (c ∷ name) in
          elim rc [
            | error e ↦ record { answer = error e; buf = buf; fs = fs₁ }
            | done entry ↦
                let (rc', fs₂) = read_inode fs₁ entry.inode_no in
                elim rc' [
                  | error e ↦ record { answer = error e; buf = buf; fs = fs₂ }
                  | done inode ↦ read_file fs₂ inode buf size offset
                ]
          ]
    ]
