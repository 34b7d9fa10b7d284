-- ===== src/Mfs/Inode/Laws.antt =====
-- An inode of Project4/mfs.c that is written is read back, and the others stay.
use bilkent_os_projects.Base.{
  ℕ, ◌+◌, ◌/◌, ◌%◌, ◌≤◌, ◌<◌, ◌≡◌, refl, sym, ◌∙◌, ap, true, false, ◌&&◌, ◌==◌, ltb, leb,
  if◌then◌else◌, Bool-cases, inl, inr, arith,
}
use bilkent_os_projects.Mfs.Bitmap.{Bytes}
use bilkent_os_projects.Mfs.Device.{Fs, put, Result, done, mfs_read_block, mfs_write_block}
use bilkent_os_projects.Mfs.Alloc.Laws.{Works}
use bilkent_os_projects.Mfs.Inode.{
  Inode, from, splice, get32, get64, write32, write64, encode_inode, decode_inode, inode_block,
  inode_place, no_such, read_inode, write_inode,
}
use bilkent_os_projects.Mfs.Inode.Words.{splice-inside, splice-outside, get32-inside, get64-inside}

-- The numbers of an inode fit their types.
pub record Fits (i : Inode) : Type 0 where
  pub inode_no : i.inode_no < 4294967296
  pub mode : i.mode < 4294967296
  pub size : i.size < 4294967296
  pub block_count : i.block_count < 4294967296
  pub index_block : i.index_block < 4294967296
  pub ctime : i.ctime < 18446744073709551616
  pub mtime : i.mtime < 18446744073709551616
  pub atime : i.atime < 18446744073709551616

-- Two inodes with the same fields and the same reserved bytes.
pub record Same (i j : Inode) : Type 0 where
  pub inode_no : j.inode_no ≡ i.inode_no
  pub mode : j.mode ≡ i.mode
  pub size : j.size ≡ i.size
  pub block_count : j.block_count ≡ i.block_count
  pub index_block : j.index_block ≡ i.index_block
  pub ctime : j.ctime ≡ i.ctime
  pub mtime : j.mtime ≡ i.mtime
  pub atime : j.atime ≡ i.atime
  pub reserved : (k : ℕ) → 48 ≤ k → k < 128 → j.rest k ≡ i.rest k

number-back : (v : ℕ) → v < 4294967296 → get32 (write32 (λ k. 0) 0 v) 0 ≡ v
number-back v h = omega arith

number64-back : (v : ℕ) → v < 18446744073709551616 → get64 (write64 (λ k. 0) 0 v) 0 ≡ v
number64-back v h =
    omega (
      arith,
      number-back (v % 4294967296) (omega arith),
      number-back (v / 4294967296) (omega arith),
    )

-- The fields take the first 48 bytes.
encode-reserved : (i : Inode) (k : ℕ) → 48 ≤ k → encode_inode i k ≡ i.rest k
encode-reserved i k low =
    let past : (o : ℕ) → o + 4 ≤ 48 → (leb o k && ltb k (o + 4)) ≡ false = λ o h. ground arith in
    rw
      (
        past 44 (omega arith),
        past 40 (omega arith),
        past 36 (omega arith),
        past 32 (omega arith),
        past 28 (omega arith),
        past 24 (omega arith),
        past 16 (omega arith),
        past 12 (omega arith),
        past 8 (omega arith),
        past 4 (omega arith),
        past 0 (omega arith),
      )
      refl

-- The bytes of an inode, wherever they stand in a block, are read as the inode.
pub decode-encode :
    (b : Bytes) (o : ℕ) (i : Inode)
    → Fits i
    → Same i (decode_inode (from (splice b o 128 (encode_inode i)) o))
decode-encode b o i fits =
    let e = encode_inode i in
    record {
      inode_no = get32-inside b e o 128 0 (omega arith) ∙ number-back i.inode_no fits.inode_no;
      mode = get32-inside b e o 128 4 (omega arith) ∙ number-back i.mode fits.mode;
      size = get32-inside b e o 128 8 (omega arith) ∙ number-back i.size fits.size;
      block_count =
          get32-inside b e o 128 12 (omega arith) ∙ number-back i.block_count fits.block_count;
      index_block =
          get32-inside b e o 128 16 (omega arith) ∙ number-back i.index_block fits.index_block;
      ctime = get64-inside b e o 128 24 (omega arith) ∙ number64-back i.ctime fits.ctime;
      mtime = get64-inside b e o 128 32 (omega arith) ∙ number64-back i.mtime fits.mtime;
      atime = get64-inside b e o 128 40 (omega arith) ∙ number64-back i.atime fits.atime;
      reserved = λ k low high. splice-inside b e o 128 k high ∙ encode-reserved i k low;
    }

same_number : (m n : ℕ) → (m == n) ≡ true → m ≡ n
same_number m n h = ground arith

is_valid : (n : ℕ) → 1 ≤ n → n ≤ 256 → no_such n ≡ false
is_valid n low high = ground arith

-- The two inodes do not overlap on the disk.
apart :
    (m n k : ℕ)
    → 1 ≤ m
    → 1 ≤ n
    → (m == n) ≡ false
    → inode_block m ≡ inode_block n
    → k < 128
    → (leb (inode_place n) (inode_place m + k) && ltb (inode_place m + k) (inode_place n + 128))
      ≡ false
apart m n k p q differ same h = ground arith

-- The answer of a write, and what is then read.
pub record Stored (i : Inode) (fs : Fs) (r : Result ℕ × Fs) : Type 0 where
  pub answer : r.0 ≡ done 0
  pub back : (j : Inode) × ((read_inode r.1 i.inode_no).0 ≡ done j) × Same i j
  pub others :
      (m k : ℕ)
      → 1 ≤ m
      → (m == i.inode_no) ≡ false
      → k < 128
      → from (r.1.disk (inode_block m)) (inode_place m) k
        ≡ from (fs.disk (inode_block m)) (inode_place m) k
  pub device : (k m : ℕ) → r.1.works k m ≡ fs.works k m

equal_self : (n : ℕ) → (n == n) ≡ true
equal_self n = ground arith

-- What is read is what the bytes on the disk say.
pub read_at :
    (fs : Fs) (n : ℕ) (b : Bytes)
    → no_such n ≡ false
    → fs.works fs.clock (inode_block n) ≡ true
    → fs.disk (inode_block n) ≡ b
    → ((decode_inode (from b (inode_place n))).inode_no == 0) ≡ false
    → (read_inode fs n).0 ≡ done (decode_inode (from b (inode_place n)))
unfolding read_inode mfs_read_block
read_at fs n b valid works e used = rw (read_inode, valid, mfs_read_block, works, e, used) refl

not_zero : (n m : ℕ) → m ≡ n → 1 ≤ n → (m == 0) ≡ false
not_zero n m e h = ground arith

-- A write over 128 bytes at the place of inode n leaves those of inode m.
others_stay :
    (fs : Fs) (n m k : ℕ) (c : Bytes)
    → 1 ≤ m
    → 1 ≤ n
    → (m == n) ≡ false
    → k < 128
    → from
        (if inode_block m == inode_block n
          then splice (fs.disk (inode_block n)) (inode_place n) 128 c
          else fs.disk (inode_block m))
        (inode_place m)
        k
      ≡ from (fs.disk (inode_block m)) (inode_place m) k
others_stay fs n m k c p q differ h = elim (Bool-cases (inode_block m == inode_block n)) [
  | inr elsewhere ↦ rw elsewhere refl
  | inl together ↦
      let same = same_number (inode_block m) (inode_block n) together in
      rw together (
        splice-outside (fs.disk (inode_block n)) c (inode_place n) 128 (inode_place m + k)
          (apart m n k p q differ same h)
        ∙ ap (λ x. fs.disk x (inode_place m + k)) (sym same))
]

-- On a device that works, an inode that is written with a valid number is read back with the same
-- fields, and the bytes of every other inode stay.
pub write_inode_lem :
    (fs : Fs) (i : Inode)
    → Works fs (inode_block i.inode_no)
    → Fits i
    → 1 ≤ i.inode_no
    → i.inode_no ≤ 256
    → Stored i fs (write_inode fs i)
unfolding write_inode mfs_read_block mfs_write_block
write_inode_lem fs i works fits low high =
    let n = i.inode_no in
    let valid = is_valid n low high in
    let b = fs.disk (inode_block n) in
    let new = splice b (inode_place n) 128 (encode_inode i) in
    let same = decode-encode b (inode_place n) i fits in
    let fs' = put (record fs { clock = fs.clock + 1 }) (inode_block n) new in
    let back =
      read_at fs' n new valid (works (fs.clock + 1 + 1)) (rw (equal_self (inode_block n)) refl)
        (not_zero n (decode_inode (from new (inode_place n))).inode_no same.inode_no low) in
    rw (write_inode, mfs_read_block, valid, works fs.clock, mfs_write_block, works (fs.clock + 1))
      (record {
        answer = refl;
        back = (decode_inode (from new (inode_place n)), back, same);
        others = λ m k p differ h. others_stay fs n m k (encode_inode i) p low differ h;
        device = λ k m. refl;
      })

-- Reading an inode depends on its block only.
pub read_inode-same :
    (fs fs' : Fs) (n : ℕ)
    → ((k m : ℕ) → fs.works k m ≡ true)
    → ((k m : ℕ) → fs'.works k m ≡ true)
    → fs'.disk (inode_block n) ≡ fs.disk (inode_block n)
    → (read_inode fs' n).0 ≡ (read_inode fs n).0
unfolding read_inode mfs_read_block
read_inode-same fs fs' n works works' e =
    rw
      (
        read_inode,
        mfs_read_block,
        works fs.clock (inode_block n),
        works' fs'.clock (inode_block n),
        e,
      )
      (elim (Bool-cases (no_such n)) [
        | inl none_such ↦ rw none_such refl
        | inr valid ↦ rw valid refl
      ])
