-- ===== src/Mfs/Create.antt =====
-- `mfs_create` and `mfs_unlink` of Project4/mfs.c (lines 288-347 and 363-418). Child:
-- `Laws` (what a file that is made looks like).
pub mod Laws
use Prim.Native.Nat.{bit_and, bit_or}
use bilkent_os_projects.Base.{
  ℕ, zero, suc, ◌+◌, ◌-◌, ◌*◌, Bool, true, false, not, ◌&&◌, ◌||◌, Option, none, some, List, [],
  ◌∷◌, ◌==◌, ltb, leb, if◌then◌else◌, length,
}
use bilkent_os_projects.Mfs.Bitmap.{Bytes}
use bilkent_os_projects.Mfs.Device.{
  Fs, Errno, Result, done, error, eio, enospc, einval, eexist, enametoolong, mfs_read_block,
}
use bilkent_os_projects.Mfs.Alloc.{allocate_inode, free_inode, free_block}
use bilkent_os_projects.Mfs.Inode.{Inode, splice, from, get32, put32, write_inode, read_inode}
use bilkent_os_projects.Mfs.Dir.{
  path_name, entry_at, is_used, entry_inode, Entry, read_root_dir, write_root_dir, find_dir_entry,
}

-- The loop over the entries for one that is not used, from entry i on, for the rounds left.
unfoldable pub unused_entry : Bytes → ℕ → ℕ → Option ℕ
unused_entry b i zero = none
unused_entry b i (suc n) =
    let rest = unused_entry b (suc i) n in if is_used (entry_at b i) then rest else some i

-- `strncpy`: the bytes of the string, then null bytes.
abbrev pub padded : List ℕ → Bytes
padded [] k = 0
padded (c ∷ name) zero = c
padded (c ∷ name) (suc k) = padded name k

abbrev pub new_entry : ℕ → List ℕ → Bytes
new_entry inode_no name k =
    if ltb k 4
    then put32 inode_no k
    else if ltb k 35
    then padded name (k - 4)
    else if k == 36
    then 1
    else 0

-- S_IFREG is 0100000, and 0777 is 511.
abbrev pub new_inode : ℕ → ℕ → ℕ → Inode
new_inode inode_no mode now = record {
  inode_no = inode_no;
  mode = bit_or 32768 (bit_and mode 511);
  size = 0;
  block_count = 0;
  index_block = 0;
  ctime = now;
  mtime = now;
  atime = now;
  rest = λ k. 0;
}

-- Lines 324-346, with the directory that was read.
unfoldable pub create_in : Fs → List ℕ → ℕ → ℕ → Bytes → ℕ → Result ℕ × Fs
create_in fs name mode now b slot =
    let (taken, fs₁) = allocate_inode fs in
    elim taken [
      | error e ↦ (error e, fs₁)
      | done inode_no ↦
          let (rc, fs₂) = write_inode fs₁ (new_inode inode_no mode now) in
          elim rc [
            | error e ↦ (error e, (free_inode fs₂ inode_no).1)
            | done _ ↦ write_root_dir fs₂ (splice b (64 * slot) 64 (new_entry inode_no name))
          ]
    ]

-- `now` is what `time` returns. An error of the first search other than "not there" is not
-- noticed, as in the source.
unfoldable pub mfs_create : Fs → List ℕ → ℕ → ℕ → Result ℕ × Fs
mfs_create fs path mode now = elim (path_name path) [
  | none ↦ (error einval, fs)
  | some [] ↦ (error einval, fs)
  | some (c ∷ name) ↦
      let (there, fs₁) = find_dir_entry fs (c ∷ name) in
      let (rc, fs₂) = read_root_dir fs₁ in
      if ltb 31 (length (c ∷ name)) then (error enametoolong, fs) else elim there [
        | done _ ↦ (error eexist, fs₁)
        | error _ ↦ elim rc [
          | error e ↦ (error e, fs₂)
          | done b ↦ elim (unused_entry b 2 254) [
            | none ↦ (error enospc, fs₂)
            | some slot ↦ create_in fs₂ (c ∷ name) mode now b slot
          ]
        ]
      ]
]

-- The loop over the index block, from word i on, for the rounds left.
unfoldable pub free_listed : Fs → Bytes → ℕ → ℕ → Fs
free_listed fs idx i zero = fs
free_listed fs idx i (suc n) =
    let block_no = get32 idx (4 * i) in
    free_listed (if block_no == 0 then fs else (free_block fs block_no).1) idx (suc i) n

abbrev pub at_most : ℕ → ℕ → ℕ
at_most n m = if ltb n m then n else m

-- Lines 388-402.
unfoldable pub free_data : Fs → ℕ → Fs
free_data fs inode_no =
    let (found, fs₁) = read_inode fs inode_no in
    elim found [
      | error _ ↦ fs₁
      | done file ↦
          let (idx, fs₂) = mfs_read_block fs₁ file.index_block in
          let fs₃ : Fs = elim idx [
            | none ↦ fs₂
            | some b ↦ free_listed fs₂ b 0 (at_most file.block_count 4096)
          ] in
          if file.index_block == 0 then fs₁ else (free_block fs₃ file.index_block).1
    ]

-- Lines 410-411: an inode whose fields but its number are 0.
abbrev pub empty_inode : ℕ → Inode
empty_inode inode_no = record {
  inode_no = inode_no;
  mode = 0;
  size = 0;
  block_count = 0;
  index_block = 0;
  ctime = 0;
  mtime = 0;
  atime = 0;
  rest = λ k. 0;
}

unfoldable pub unlink_at : Fs → Bytes → ℕ → Result ℕ × Fs
unlink_at fs b index =
    let inode_no = entry_inode (entry_at b index) in
    let (rc, fs₁) = write_root_dir (free_data fs inode_no) (splice b (64 * index) 64 (λ k. 0)) in
    let (rc', fs₂) = write_inode fs₁ (empty_inode inode_no) in
    elim rc [
      | error e ↦ (error e, fs₁)
      | done _ ↦ elim rc' [ error e ↦ (error e, fs₂) | done _ ↦ free_inode fs₂ inode_no ]
    ]

unfoldable pub mfs_unlink : Fs → List ℕ → Result ℕ × Fs
mfs_unlink fs path = elim (path_name path) [
  | none ↦ (error einval, fs)
  | some [] ↦ (error einval, fs)
  | some (c ∷ name) ↦
      let (there, fs₁) = find_dir_entry fs (c ∷ name) in
      let (rc, fs₂) = read_root_dir fs₁ in
      elim there [
        | error e ↦ (error e, fs₁)
        | done entry ↦ elim rc [ error e ↦ (error e, fs₂) | done b ↦ unlink_at fs₂ b entry.index ]
      ]
]
