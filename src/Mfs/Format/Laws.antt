-- ===== src/Mfs/Format/Laws.antt =====
-- What a disk looks like that Project4/make_mfs.c formatted.
use bilkent_os_projects.Base.{
  ℕ, zero, suc, ◌+◌, ◌*◌, ◌&&◌, leb, subst, Bool-cases, inl, inr, ◌/◌, ◌%◌, ◌≤◌, ◌<◌, ◌≡◌, refl, ap,
  ◌∙◌, true, false, ◌||◌, some, List, [], ◌∷◌, ◌==◌, ltb, all_below, all_below-true, ==_iff, arith,
}
use bilkent_os_projects.Mfs.Bitmap.{Bytes, byte_bit, mfs_get_bit}
use bilkent_os_projects.Mfs.Bitmap.Byte.{one_if}
use bilkent_os_projects.Mfs.Bitmap.Laws.{AreBytes, mfs_get_bit-mfs_set_bit, mfs_set_bit-AreBytes}
use bilkent_os_projects.Mfs.Device.{Fs, put, done, error, enoent, mfs_read_block, mfs_write_block}
use bilkent_os_projects.Mfs.Inode.{
  Inode, splice, get32, encode_inode, decode_inode, from, read_inode, no_such, inode_block,
  inode_place,
}
use bilkent_os_projects.Mfs.Inode.Laws.{Same, decode-encode, read_at}
use bilkent_os_projects.Mfs.Dir.{
  mfs_getattr, path_name, stat_of, is_used, entry_at, search_name, find_dir_entry,
}
use bilkent_os_projects.Mfs.Dir.Attributes.{filled-Same}
use bilkent_os_projects.Mfs.Create.{unused_entry}
use bilkent_os_projects.Mfs.Create.Laws.{Reliable, find_at}
use bilkent_os_projects.Mfs.Format.{
  zeros, superblock_of, mark_first, root, first_entries, layout, write_all, make_mfs,
  load_superblock,
}

zero_table : all_below 8 (λ k. byte_bit 0 k == 0) ≡ true
unfolding all_below
zero_table = refl

zero_bit : (j : ℕ) → mfs_get_bit zeros j ≡ 0
unfolding mfs_get_bit
zero_bit j = (==_iff _ 0).0 (all_below-true 8 _ zero_table (j % 8) (omega arith))

-- The first n bits are set, and no other.
mark_first_lem :
    (n j : ℕ)
    → (mfs_get_bit (mark_first n zeros) j ≡ one_if (ltb j n)) × AreBytes (mark_first n zeros)
unfolding mark_first
mark_first_lem zero j = (zero_bit j ∙ ground arith, λ i. omega arith)
mark_first_lem (suc n) j =
    let (bits, bytes) = mark_first_lem n j in
    let set = mfs_get_bit-mfs_set_bit (mark_first n zeros) n j true bytes in
    (set ∙ ground (arith, bits), mfs_set_bit-AreBytes (mark_first n zeros) n true bytes)

abbrev put_all : Fs → List (ℕ × Bytes) → Fs
put_all fs [] = fs
put_all fs ((n, b) ∷ ws) = put_all (put fs n b) ws

write_one :
    (fs : Fs) (n : ℕ) (b : Bytes) → Reliable fs → mfs_write_block fs n b ≡ (true, put fs n b)
unfolding mfs_write_block
write_one fs n b works = rw (mfs_write_block, works fs.clock n) refl

-- On a reliable device every write is done.
write_all-done :
    (fs : Fs) (ws : List (ℕ × Bytes)) → Reliable fs → write_all fs ws ≡ (0, put_all fs ws)
unfolding write_all
write_all-done fs [] works = refl
write_all-done fs ((n, b) ∷ ws) works =
    rw (write_all, write_one fs n b works) (write_all-done (put fs n b) ws works)

-- The disk can be mounted, with the number of blocks that it has; the first six blocks, the first
-- inode and the first two entries are taken; and the root is a directory.
pub record Formatted (count now : ℕ) (r : ℕ × Fs) : Type 0 where
  pub answer : r.0 ≡ 0
  pub reliable : Reliable r.1
  pub mounts : (load_superblock r.1).0 ≡ true
  pub blocks : (load_superblock r.1).1.block_count ≡ count
  pub block_bits : (j : ℕ) → mfs_get_bit (r.1.disk 1) j ≡ one_if (ltb j 6)
  pub inode_bits : (j : ℕ) → mfs_get_bit (r.1.disk 2) j ≡ one_if (ltb j 1)
  pub block_bytes : AreBytes (r.1.disk 1)
  pub inode_bytes : AreBytes (r.1.disk 2)
  pub used : (k : ℕ) → k < 256 → is_used (entry_at (r.1.disk 5) k) ≡ ltb k 2
  pub dot : (find_dir_entry r.1 (46 ∷ [])).0 ≡ done (record { index = 0; inode_no = 1 })
  pub dot_dot : (find_dir_entry r.1 (46 ∷ 46 ∷ [])).0 ≡ done (record { index = 1; inode_no = 1 })
  pub room : unused_entry (r.1.disk 5) 2 254 ≡ some 2
  pub no_other_inode : (n : ℕ) → 2 ≤ n → n ≤ 256 → (read_inode r.1 n).0 ≡ error enoent
  pub root_inode : (j : Inode) × ((read_inode r.1 1).0 ≡ done j) × Same (root now) j
  pub root_attributes : (mfs_getattr r.1 (47 ∷ [])).0 ≡ done (stat_of (root now))

-- The superblock that is written is accepted, and says how many blocks there are.
superblock_read :
    (fs : Fs) (count : ℕ)
    → Reliable fs
    → count < 4294967296
    → fs.disk 0 ≡ superblock_of count
    → ((load_superblock fs).0 ≡ true) × ((load_superblock fs).1.block_count ≡ count)
unfolding load_superblock mfs_read_block
superblock_read fs count works small e =
    rw (load_superblock, mfs_read_block, works fs.clock 0, e) (refl, omega arith)

root_read :
    (fs : Fs) (now : ℕ)
    → Reliable fs
    → now < 18446744073709551616
    → fs.disk 3 ≡ splice zeros 0 128 (encode_inode (root now))
    → (j : Inode) × ((read_inode fs 1).0 ≡ done j) × Same (root now) j
root_read fs now works small e =
    let same = decode-encode zeros 0 (root now) (omega arith) in
    (
      decode_inode (from (splice zeros 0 128 (encode_inode (root now))) 0),
      read_at fs 1 (splice zeros 0 128 (encode_inode (root now))) refl (works fs.clock 3) e
          (ground (arith, same.inode_no)),
      same,
    )

root_getattr :
    (fs : Fs) (i j : Inode)
    → (read_inode fs 1).0 ≡ done j
    → Same i j
    → (mfs_getattr fs (47 ∷ [])).0 ≡ done (stat_of i)
unfolding mfs_getattr path_name
root_getattr fs i j read same = filled-Same i j (read_inode fs 1) read same

-- The entries "." and "..", and no other.
first_used : (k : ℕ) → k < 256 → is_used (entry_at first_entries k) ≡ ltb k 2
first_used k h = elim (Bool-cases (k == 0)) [
  | inl dot ↦
      let e : 0 ≡ k = ground arith in
      subst (λ m. is_used (entry_at first_entries m) ≡ ltb m 2) e refl
  | inr later ↦ elim (Bool-cases (k == 1)) [
    | inl dot_dot ↦
        let e : 1 ≡ k = ground arith in
        subst (λ m. is_used (entry_at first_entries m) ≡ ltb m 2) e refl
    | inr other ↦
        let before : (leb 64 (64 * k + 36) && ltb (64 * k + 36) 128) ≡ false = ground arith in
        let first : (leb 0 (64 * k + 36) && ltb (64 * k + 36) 64) ≡ false = ground arith in
        rw (before, first) (ground arith)
  ]
]

dot_found : search_name (46 ∷ []) first_entries 0 256 ≡ some 0
unfolding search_name
dot_found = refl

dot_dot_found : search_name (46 ∷ 46 ∷ []) first_entries 0 256 ≡ some 1
unfolding search_name
dot_dot_found = refl

-- An inode whose first four bytes are 0 is free.
read_free :
    (fs : Fs) (n : ℕ)
    → Reliable fs
    → no_such n ≡ false
    → get32 (from (fs.disk (inode_block n)) (inode_place n)) 0 ≡ 0
    → (read_inode fs n).0 ≡ error enoent
unfolding read_inode mfs_read_block
read_free fs n works valid free =
    rw (read_inode, valid, mfs_read_block, works fs.clock (inode_block n), free) refl

free_number :
    (fs : Fs) (count now n : ℕ)
    → 2 ≤ n
    → n ≤ 256
    → get32 (from ((put_all fs (layout count now)).disk (inode_block n)) (inode_place n)) 0 ≡ 0
free_number fs count now n low high = elim (Bool-cases (ltb n 129)) [
  | inl first ↦
      let place : inode_block n ≡ 3 = ground arith in
      let out : (k : ℕ)
          → k < 4
          → (leb 0 (inode_place n + k) && ltb (inode_place n + k) 128) ≡ false =
        λ k h. ground arith in
      rw place (
        rw (out 0 (omega arith), out 1 (omega arith), out 2 (omega arith), out 3 (omega arith))
          refl)
  | inr second ↦ let place : inode_block n ≡ 4 = ground arith in rw place refl
]

third_is_free : unused_entry first_entries 2 254 ≡ some 2
unfolding unused_entry
third_is_free = refl

formatted_lem :
    (fs : Fs) (count now : ℕ)
    → Reliable fs
    → count < 4294967296
    → now < 18446744073709551616
    → Formatted count now (0, put_all fs (layout count now))
unfolding mark_first
formatted_lem fs count now works small fits =
    let fs' = put_all fs (layout count now) in
    let the_root = root_read fs' now works fits refl in
    let (mounts, blocks) = superblock_read fs' count works small refl in
    record {
      answer = refl;
      reliable = works;
      mounts = mounts;
      blocks = blocks;
      block_bits = λ j. (mark_first_lem 6 j).0;
      inode_bits = λ j. (mark_first_lem 1 j).0;
      block_bytes = (mark_first_lem 6 0).1;
      inode_bytes = (mark_first_lem 1 0).1;
      used = first_used;
      dot = ap (λ x. x.0) (find_at fs' (46 ∷ []) 0 1 works dot_found refl);
      dot_dot = ap (λ x. x.0) (find_at fs' (46 ∷ 46 ∷ []) 1 1 works dot_dot_found refl);
      room = third_is_free;
      no_other_inode =
          λ n low high. read_free fs' n works (ground arith) (free_number fs count now n low high);
      root_inode = the_root;
      root_attributes = root_getattr fs' (root now) the_root.0 the_root.1 the_root.2;
    }

-- On a device that never fails, with a size of 128 to 4096 blocks and a time that fits, formatting ends
-- with exit code 0; then the superblock is accepted and says how many blocks there are; exactly the
-- first six blocks and the first inode are taken; of the 256 entries exactly the first two are used,
-- and a search finds them under "." and ".." with inode 1, so that the third one is the next to be taken;
-- no inode but the root's is in the table, that one is the root directory, and the attributes of "/"
-- are its attributes.
pub make_mfs_lem :
    (fs : Fs) (size now : ℕ)
    → Reliable fs
    → 128 ≤ size / 16384
    → size / 16384 ≤ 4096
    → now < 18446744073709551616
    → Formatted (size / 16384) now (make_mfs fs 2 true (some size) now)
unfolding make_mfs
make_mfs_lem fs size now works low high fits =
    let count = size / 16384 in
    let wrap : count % 4294967296 ≡ count = omega arith in
    let test : (ltb count 128 || ltb 4096 count) ≡ false = ground arith in
    rw (make_mfs, wrap, test, write_all-done fs (layout count now) works)
      (formatted_lem fs count now works (omega arith) fits)
