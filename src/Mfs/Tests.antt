-- ===== src/Mfs/Tests.antt =====
-- A disk as Project4/make_mfs.c leaves its bitmaps, and the theorems at it.
use bilkent_os_projects.Base.{
  Bool-cases, inl, inr, subst, sym, ltb, List, ℕ, ◌+◌, ◌*◌, ◌<◌, ◌||◌, none, some, [], ◌∷◌, ◌≡◌,
  refl, true, false, ◌⊎◌, ◌==◌, if◌then◌else◌, arith,
}
use bilkent_os_projects.Mfs.Bitmap.{Bytes, mfs_get_bit, mfs_set_bit}
use bilkent_os_projects.Mfs.Bitmap.Laws.{AreBytes}
use bilkent_os_projects.Mfs.Device.{
  Fs, done, error, enoent, enospc, mfs_read_block, mfs_write_block,
}
use bilkent_os_projects.Mfs.Alloc.{allocate_inode, free_inode, allocate_block, first_free}
use bilkent_os_projects.Mfs.Alloc.Search.{IsFull, IsFirst}
use bilkent_os_projects.Mfs.Alloc.Laws.{
  Works, Took, Refused, allocate_inode_lem, allocate_block_lem, free_inode-allocate_inode,
}
use bilkent_os_projects.Mfs.Dir.{
  path_name, has_name, entry_at, search_name, find_dir_entry, read_root_dir,
}
use bilkent_os_projects.Mfs.Content.{mfs_read, mfs_readdir}
use bilkent_os_projects.Mfs.Content.Reading.{HasRead}
use bilkent_os_projects.Mfs.Content.Lookup.{IsFile, mfs_read_lem}
use bilkent_os_projects.Mfs.Content.Append.{
  mfs_write, append_file, load_index, write_loop, write_round, find_target, store_block,
  finish_write,
}
use bilkent_os_projects.Mfs.Content.Layout.{word, IsTaken, IsLaidOut}
use bilkent_os_projects.Mfs.Content.Written.{Appends, mfs_write_lem}
use bilkent_os_projects.Mfs.Content.RoundTrip.{ReadsBack, mfs_read-mfs_write}
use bilkent_os_projects.Mfs.Content.Names.{is_listed, is_done, mfs_readdir_lem}
use bilkent_os_projects.Mfs.Content.Freed.{IsDataBlock}
use bilkent_os_projects.Mfs.Content.Unlink.{IsOwned, Unlinked, mfs_unlink_lem}
use bilkent_os_projects.Mfs.Create.{unused_entry, mfs_create, mfs_unlink}
use bilkent_os_projects.Mfs.Create.Laws.{Reliable, HasFreeInode, Created, mfs_create_lem}
use bilkent_os_projects.Mfs.Format.{make_mfs}
use bilkent_os_projects.Mfs.Format.Laws.{Formatted, make_mfs_lem}
use bilkent_os_projects.Mfs.Inode.{Inode, write_inode, read_inode, decode_inode, from}
use bilkent_os_projects.Mfs.Inode.Laws.{Fits, Stored, write_inode_lem}

-- Inode 1 and the first six blocks are taken.
abbrev formatted : Fs
formatted = record {
  disk = λ n k. if k == 0 then (if n == 1 then 63 else if n == 2 then 1 else 0) else 0;
  block_count = 128;
  clock = 0;
  works = λ k n. true;
  leaves = λ k j. 0;
}

formatted-AreBytes : (n : ℕ) → AreBytes (formatted.disk n)
formatted-AreBytes n i = ground arith

formatted-Works : (n : ℕ) → Works formatted n
formatted-Works n k = refl

allocate_inode_lem_example :
    ((i : ℕ) × IsFirst (formatted.disk 2) 1 255 i
      × Took 2 i true (i + 1) formatted (allocate_inode formatted))
    ⊎ (IsFull (formatted.disk 2) 1 255 × Refused enospc formatted (allocate_inode formatted))
allocate_inode_lem_example = allocate_inode_lem formatted (formatted-Works 2) (formatted-AreBytes 2)

allocate_block_lem_example :
    ((i : ℕ) × IsFirst (formatted.disk 1) 6 122 i
      × Took 1 i true i formatted (allocate_block formatted))
    ⊎ (IsFull (formatted.disk 1) 6 122 × Refused enospc formatted (allocate_block formatted))
allocate_block_lem_example = allocate_block_lem formatted (formatted-Works 1) (formatted-AreBytes 1)

-- The first inode that is given out is number 2.
second_inode : (allocate_inode formatted).0 ≡ done 2
unfolding allocate_inode mfs_read_block mfs_write_block first_free mfs_get_bit mfs_set_bit
second_inode = refl

free_inode-allocate_inode_example :
    mfs_get_bit ((free_inode (allocate_inode formatted).1 2).1.disk 2) 1
    ≡ mfs_get_bit (formatted.disk 2) 1
free_inode-allocate_inode_example =
    free_inode-allocate_inode formatted 2 (formatted-Works 2) (formatted-AreBytes 2) second_inode 1

-- A regular file of three bytes in one block.
abbrev file : Inode
file = record {
  inode_no = 200;
  mode = 33188;
  size = 3;
  block_count = 1;
  index_block = 6;
  ctime = 1700000000;
  mtime = 1700000000;
  atime = 1700000000;
  rest = λ k. 0;
}

file-Fits : Fits file
file-Fits = omega arith

write_inode_lem_example : Stored file formatted (write_inode formatted file)
write_inode_lem_example =
    write_inode_lem formatted file (formatted-Works 4) file-Fits (omega arith) (omega arith)

-- The root directory with its entries "." and "..".
abbrev root_dir : Bytes
root_dir k =
    if k == 0 || k == 64
    then 1
    else if k == 4 || (k == 68 || k == 69)
    then 46
    else if k == 36 || k == 100
    then 1
    else 0

abbrev with_root : Fs
with_root = record formatted { disk = λ n. if n == 5 then root_dir else formatted.disk n }

with_root-Reliable : Reliable with_root
with_root-Reliable k n = refl

second_free : HasFreeInode with_root
unfolding mfs_get_bit
second_free = record { index = 1; above = omega arith; below = omega arith; free = refl }

no_such_name : search_name (97 ∷ []) root_dir 0 256 ≡ none
unfolding search_name
no_such_name = refl

third_entry : unused_entry root_dir 2 254 ≡ some 2
unfolding unused_entry
third_entry = refl

-- The path "/a".
mfs_create_lem_example :
    Created
      (47 ∷ 97 ∷ [])
      (97 ∷ [])
      420
      1700000000
      2
      (mfs_create with_root (47 ∷ 97 ∷ []) 420 1700000000)
unfolding path_name
mfs_create_lem_example =
    mfs_create_lem with_root (47 ∷ 97 ∷ []) 97 [] 420 1700000000 2 with_root-Reliable
      (formatted-AreBytes 2) second_free (omega arith) (omega arith) refl (omega arith) no_such_name
      third_entry

-- A disk of 2 MB.
make_mfs_lem_example :
    Formatted 128 1700000000 (make_mfs formatted 2 true (some 2097152) 1700000000)
make_mfs_lem_example =
    make_mfs_lem formatted 2097152 1700000000 (λ k n. refl) (omega arith) (omega arith)
      (omega arith)

-- A disk with a file "a" of the bytes 120, 121, 122: the directory, the inode table, the index block and
-- the data block.
abbrev file_dir : Bytes
file_dir k = if k == 128 then 2 else if k == 132 then 97 else if k == 164 then 1 else root_dir k

abbrev file_table : Bytes
file_table k =
    if k == 128
    then 2
    else if k == 136
    then 3
    else if k == 140
    then 1
    else if k == 144
    then 6
    else 0

abbrev file_index : Bytes
file_index k = if k == 0 then 7 else 0

abbrev file_block : Bytes
file_block k = if ltb k 3 then 120 + k else 0

abbrev taken_blocks : Bytes
taken_blocks k = if k == 0 then 255 else 0

abbrev with_file : Fs
with_file = record with_root {
  disk = λ n.
      if n == 5
      then file_dir
      else if n == 3
      then file_table
      else if n == 6
      then file_index
      else if n == 7
      then file_block
      else if n == 1
      then taken_blocks
      else λ k. 0;
}

with_file-Reliable : Reliable with_file
with_file-Reliable k n = refl

abbrev small_file : Inode
small_file = decode_inode (from file_table 128)

small_file-IsFile : IsFile with_file (47 ∷ 97 ∷ []) small_file
unfolding path_name find_dir_entry read_root_dir search_name mfs_read_block read_inode
small_file-IsFile = record {
  first = 97;
  rest = [];
  entry = record { index = 2; inode_no = 2 };
  named = refl;
  found = refl;
  has_inode = refl;
}

mfs_read_lem_example :
    HasRead with_file file_index (λ k. 0) 1 0 2 (mfs_read with_file (47 ∷ 97 ∷ []) (λ k. 0) 100 1)
mfs_read_lem_example =
    mfs_read_lem with_file (47 ∷ 97 ∷ []) small_file (λ k. 0) 100 1 with_file-Reliable
      small_file-IsFile refl refl (omega arith)

mfs_readdir_lem_example :
    (names : List Bytes) × ((mfs_readdir with_file (47 ∷ [])).0 ≡ done names)
    × ((name : List ℕ) → is_listed name names ≡ is_done (find_dir_entry with_file name).0)
mfs_readdir_lem_example = mfs_readdir_lem with_file with_file-Reliable

-- The index block names block 7 only.
word-file_index : (k : ℕ) → (k == 0) ≡ false → word file_index k ≡ 0
word-file_index k h = ground arith

only_first : (k : ℕ) → (word file_index k == 0) ≡ false → k ≡ 0
only_first k h = elim (Bool-cases (k == 0)) [
  | inl first ↦ ground arith
  | inr other ↦ let e = word-file_index k other in ground arith
]

small_file-IsLaidOut : IsLaidOut with_file 6 file_index
unfolding mfs_get_bit
small_file-IsLaidOut = record {
  reliable = with_file-Reliable;
  bytes = λ i. ground arith;
  few = omega arith;
  index = (omega arith, refl);
  taken = λ k h block.
      subst (λ m. IsTaken with_file (word file_index m)) (sym (only_first k block))
        (omega arith, refl);
  apart = λ k h. elim (Bool-cases (k == 0)) [
    | inl first ↦
        let e : 0 ≡ k = ground arith in subst (λ m. (word file_index m == 6) ≡ false) e refl
    | inr other ↦ let e = word-file_index k other in ground arith
  ];
  distinct = λ j k hj hk apart block.
      let first = only_first j block in
      let other = word-file_index k (ground arith) in
      subst (λ m. (word file_index m == word file_index k) ≡ false) (sym first)
        (subst (λ v. (7 == v) ≡ false) (sym other) refl);
}

small_file-Fits : Fits small_file
small_file-Fits = record {
  inode_no = omega arith;
  mode = omega arith;
  size = omega arith;
  block_count = omega arith;
  index_block = omega arith;
  ctime = omega arith;
  mtime = omega arith;
  atime = omega arith;
}

-- The bytes 112, 113 go behind the three of the file.
abbrev more_bytes : Bytes
more_bytes k = 112 + k

mfs_write_lem_example :
    Appends with_file small_file more_bytes 2
      (mfs_write with_file (47 ∷ 97 ∷ []) more_bytes 2 3 1700000000)
mfs_write_lem_example =
    mfs_write_lem with_file (47 ∷ 97 ∷ []) small_file more_bytes 2 1700000000 with_file-Reliable
      small_file-IsFile small_file-Fits refl (omega arith) (inl (refl, small_file-IsLaidOut))
      (omega arith) (omega arith)

two_written : (mfs_write with_file (47 ∷ 97 ∷ []) more_bytes 2 3 1700000000).0 ≡ done 2
unfolding mfs_write path_name find_dir_entry read_root_dir search_name mfs_read_block read_inode
    append_file load_index write_loop write_round find_target store_block mfs_write_block
    finish_write write_inode
two_written = refl

mfs_read-mfs_write_example : ReadsBack more_bytes 2 (
    mfs_read
      (mfs_write with_file (47 ∷ 97 ∷ []) more_bytes 2 3 1700000000).1
      (47 ∷ 97 ∷ [])
      (λ k. 0)
      2
      3)
unfolding small_file-IsFile
mfs_read-mfs_write_example =
    mfs_read-mfs_write with_file (47 ∷ 97 ∷ []) small_file more_bytes (λ k. 0) 2 1700000000 2
      with_file-Reliable small_file-IsFile refl small_file-Fits refl (omega arith)
      (inl (refl, small_file-IsLaidOut)) (omega arith) (omega arith) two_written

other_names :
    (j : ℕ) → (j == 2) ≡ false → j < 256 → has_name (97 ∷ []) (entry_at file_dir j) ≡ false
other_names j other high =
    let differs : (file_dir (64 * j + 4) == 97) ≡ false = ground arith in ground (arith, differs)

small_file-IsOwned : IsOwned with_file small_file 2
unfolding read_inode mfs_read_block
small_file-IsOwned = record {
  reliable = with_file-Reliable;
  block_bytes = λ i. ground arith;
  inode_bytes = λ i. ground arith;
  above = omega arith;
  below = omega arith;
  has_inode = refl;
  data_blocks = record {
    index = λ e. (omega arith, omega arith);
    listed = λ e k h block.
        subst (λ m. IsDataBlock with_file (word file_index m)) (sym (only_first k block))
          (omega arith, omega arith);
  };
}

path_a : path_name (47 ∷ 97 ∷ []) ≡ some (97 ∷ [])
unfolding path_name
path_a = refl

found_a : search_name (97 ∷ []) file_dir 0 256 ≡ some 2
unfolding search_name
found_a = refl

mfs_unlink_lem_example :
    Unlinked with_file small_file 2 2 (mfs_unlink with_file (47 ∷ 97 ∷ []))
    × ((find_dir_entry (mfs_unlink with_file (47 ∷ 97 ∷ [])).1 (97 ∷ [])).0 ≡ error enoent)
mfs_unlink_lem_example =
    mfs_unlink_lem with_file (47 ∷ 97 ∷ []) small_file 97 [] 2 2 path_a (omega arith) found_a
      other_names refl small_file-IsOwned
