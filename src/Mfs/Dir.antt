-- ===== src/Mfs/Dir.antt =====
-- The root directory of Project4/mfs.c (lines 54-63 and 110-142), `struct mfs_dir_entry` of
-- Project4/mfs.h (lines 36-41), and `mfs_getattr` and `mfs_open` (lines 219-257 and 349-361).
-- A C string is the list of its bytes without the null byte. Children: `Names` (strings in a
-- block), `Find` (the search).
pub mod Names
pub mod Find
pub mod Attributes
use Prim.Native.Nat.{bit_and}
use bilkent_os_projects.Base.{
  ℕ, zero, suc, ◌+◌, ◌-◌, ◌*◌, Bool, true, false, not, ◌&&◌, ◌||◌, Option, none, some, List, [],
  ◌∷◌, ◌==◌, ltb, leb, if◌then◌else◌,
}
use bilkent_os_projects.Mfs.Bitmap.{Bytes}
use bilkent_os_projects.Mfs.Device.{
  Fs, Errno, Result, done, error, eio, enoent, einval, root_inode, root_dir_block, mfs_read_block,
  mfs_write_block,
}
use bilkent_os_projects.Mfs.Inode.{Inode, from, get32, put32, read_inode}

abbrev pub contains_byte : ℕ → List ℕ → Bool
contains_byte c [] = false
contains_byte c (x ∷ xs) = x == c || contains_byte c xs

-- A path is "/" for the root, or "/" and a name without "/", which is byte 47.
unfoldable pub path_name : List ℕ → Option (List ℕ)
path_name [] = none
path_name (c ∷ name) = if not (c == 47) || contains_byte 47 name then none else some name

-- `strcmp(..., name) == 0` for the string that starts at the first byte.
abbrev pub is_string : Bytes → List ℕ → Bool
is_string b [] = b 0 == 0
is_string b (c ∷ name) = b 0 == c && is_string (λ k. b (suc k)) name

-- Entry k of the directory: 4 bytes inode_no, 32 bytes name, `used`, and 27 reserved bytes.
abbrev pub entry_at : Bytes → ℕ → Bytes
entry_at b k = from b (64 * k)

abbrev pub is_used : Bytes → Bool
is_used e = not (e 36 == 0)

abbrev pub entry_name : Bytes → Bytes
entry_name e = from e 4

abbrev pub entry_inode : Bytes → ℕ
entry_inode e = get32 e 0

abbrev pub has_name : List ℕ → Bytes → Bool
has_name name e = is_used e && is_string (entry_name e) name

-- The loop of `find_dir_entry`, from entry i on, for the rounds left.
unfoldable pub search_name : List ℕ → Bytes → ℕ → ℕ → Option ℕ
search_name name b i zero = none
search_name name b i (suc n) =
    let rest = search_name name b (suc i) n in if has_name name (entry_at b i) then some i else rest

unfoldable pub read_root_dir : Fs → Result Bytes × Fs
read_root_dir fs =
    let (block, fs₁) = mfs_read_block fs root_dir_block in
    (elim block [ none ↦ error eio | some b ↦ done b ], fs₁)

unfoldable pub write_root_dir : Fs → Bytes → Result ℕ × Fs
write_root_dir fs b =
    let (ok, fs₁) = mfs_write_block fs root_dir_block b in (if ok then done 0 else error eio, fs₁)

-- The entry and its place.
pub record Entry : Type 0 where
  pub index : ℕ
  pub inode_no : ℕ

unfoldable pub find_dir_entry : Fs → List ℕ → Result Entry × Fs
find_dir_entry fs name =
    let (rc, fs₁) = read_root_dir fs in
    elim rc [
      | error e ↦ (error e, fs₁)
      | done b ↦ elim (search_name name b 0 256) [
        | none ↦ (error enoent, fs₁)
        | some i ↦ (done (record { index = i; inode_no = entry_inode (entry_at b i) }), fs₁)
      ]
    ]

-- The fields of `struct stat` that are filled; the others are 0. A time is the 64 bits that the cast
-- to time_t keeps.
pub record Stat : Type 0 where
  pub st_ino : ℕ
  pub st_mode : ℕ
  pub st_nlink : ℕ
  pub st_size : ℕ
  pub st_blocks : ℕ
  pub st_ctime : ℕ
  pub st_mtime : ℕ
  pub st_atime : ℕ

-- `S_ISDIR(mode)`: (mode & 0170000) == 0040000.
abbrev pub is_dir : ℕ → Bool
is_dir mode = bit_and mode 61440 == 16384

abbrev pub stat_of : Inode → Stat
stat_of inode = record {
  st_ino = inode.inode_no;
  st_mode = inode.mode;
  st_nlink = if is_dir inode.mode then 2 else 1;
  st_size = inode.size;
  st_blocks = inode.block_count;
  st_ctime = inode.ctime;
  st_mtime = inode.mtime;
  st_atime = inode.atime;
}

abbrev pub filled : Result Inode × Fs → Result Stat × Fs
filled (rc, fs) = (elim rc [ error e ↦ error e | done inode ↦ done (stat_of inode) ], fs)

unfoldable pub mfs_getattr : Fs → List ℕ → Result Stat × Fs
mfs_getattr fs path = elim (path_name path) [
  | none ↦ (error enoent, fs)
  | some [] ↦ filled (read_inode fs root_inode)
  | some (c ∷ name) ↦
      let (rc, fs₁) = find_dir_entry fs (c ∷ name) in
      elim rc [ error e ↦ (error e, fs₁) | done entry ↦ filled (read_inode fs₁ entry.inode_no) ]
]

unfoldable pub mfs_open : Fs → List ℕ → Result ℕ × Fs
mfs_open fs path = elim (path_name path) [
  | none ↦ (error einval, fs)
  | some [] ↦ (error einval, fs)
  | some (c ∷ name) ↦
      let (rc, fs₁) = find_dir_entry fs (c ∷ name) in
      (elim rc [ error e ↦ error e | done entry ↦ done 0 ], fs₁)
]
