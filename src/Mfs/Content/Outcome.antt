-- ===== src/Mfs/Content/Outcome.antt =====
-- What `mfs_write` of Project4/mfs.c answers, and the file behind it.
use bilkent_os_projects.Base.{
  ℕ, zero, suc, ◌+◌, ◌-◌, ◌≤◌, ◌<◌, ◌≡◌, ◌⊎◌, refl, sym, ap, ◌∙◌, subst, true, false, ◌==◌, ltb,
  leb, if◌then◌else◌, Bool-cases, inl, inr, arith, none, some,
}
use bilkent_os_projects.Mfs.Bitmap.{Bytes, mfs_get_bit}
use bilkent_os_projects.Mfs.Bitmap.Laws.{AreBytes}
use bilkent_os_projects.Mfs.Device.{Fs, Errno, put, Result, done, mfs_write_block, mfs_read_block}
use bilkent_os_projects.Mfs.Inode.{
  Inode, splice, read_inode, write_inode, inode_block, inode_place, encode_inode, no_such,
}
use bilkent_os_projects.Mfs.Inode.Laws.{Fits, write_inode_lem}
use bilkent_os_projects.Mfs.Create.Laws.{Reliable, tick}
use bilkent_os_projects.Mfs.Content.{block_idx, block_off}
use bilkent_os_projects.Mfs.Content.Reading.{file_byte}
use bilkent_os_projects.Mfs.Content.Append.{
  WriteState, IndexBlock, write_round, write_loop, grown_inode, finish_write,
}
use bilkent_os_projects.Mfs.Content.Layout.{word, IsLaidOut}
use bilkent_os_projects.Mfs.Content.Loop.{IsAppended, write_round-Proceeds}

-- The loop ends with all bytes written, or with an error behind some of them.
abbrev pub Ended : ℕ → WriteState → Type 0
Ended size w = ((w.rc ≡ none) × (w.bytes_written ≡ size)) ⊎ ((e : Errno) × (w.rc ≡ some e))

pub write_loop_lem :
    (fuel : ℕ) (disk : ℕ → Bytes) (idx buf : Bytes) (offset size ib : ℕ) (w : WriteState)
    → w.rc ≡ none
    → size ≤ w.bytes_written + fuel
    → IsAppended disk idx buf offset size ib w
    → IsAppended disk idx buf offset size ib (write_loop fuel w buf offset size)
      × Ended size (write_loop fuel w buf offset size)
unfolding write_loop
write_loop_lem zero disk idx buf offset size ib w ok enough h =
    let within = h.within in (h, inl (ok, omega arith))
write_loop_lem (suc fuel) disk idx buf offset size ib w ok enough h =
    let within = h.within in
    let next = write_round w buf offset size in
    elim (Bool-cases (leb size w.bytes_written)) [
      | inl all ↦ rw all (h, inl (ok, ground arith))
      | inr more ↦
          let p = write_round-Proceeds disk idx buf offset size ib w h (ground arith) in
          elim p.moved [
            | inr (e, stop) ↦ rw (more, write_loop, stop) (p.appended, inr (e, stop))
            | inl (go, forward) ↦
                rw (more, write_loop, go)
                  (write_loop_lem fuel disk idx buf offset size ib next go (omega arith) p.appended)
          ]
    ]

-- The inode goes to its block of the table.
abbrev pub stored_inode : Fs → Inode → Fs
stored_inode fs inode = put (tick fs) (inode_block inode.inode_no) (
    splice (fs.disk (inode_block inode.inode_no)) (inode_place inode.inode_no) 128
      (encode_inode inode))

pub write_inode-put :
    (fs : Fs) (inode : Inode)
    → Reliable fs
    → no_such inode.inode_no ≡ false
    → write_inode fs inode ≡ (done 0, stored_inode fs inode)
unfolding write_inode mfs_read_block mfs_write_block
write_inode-put fs inode works valid =
    rw
      (
        write_inode,
        valid,
        mfs_read_block,
        works fs.clock (inode_block inode.inode_no),
        mfs_write_block,
        works (fs.clock + 1) (inode_block inode.inode_no),
      )
      refl

-- The inode table takes blocks 3 and 4.
inode_block-below : (n : ℕ) → no_such n ≡ false → (inode_block n == 5) ≡ false
inode_block-below n valid = ground arith

-- A file with its index block on the disk.
abbrev pub HasLayout : Fs → ℕ → Type 0
HasLayout fs ib = IsLaidOut fs ib (fs.disk ib)

-- A write of `count` bytes behind the end of a file: the inode in the table has the new size, the bytes
-- of the file are the old ones and behind them those of the buffer, and the file is in order.
pub record HasWritten (fs : Fs) (inode : Inode) (buf : Bytes) (size : ℕ) (r : Result ℕ × Fs)
    : Type 0 where
  pub count : ℕ
  pub answer : r.0 ≡ done count
  pub bounds : (0 < count) × (count ≤ size)
  pub stored : Inode
  pub read_back : (read_inode r.1 inode.inode_no).0 ≡ done stored
  pub new_size : stored.size ≡ inode.size + count
  pub content :
      (p : ℕ)
      → p < inode.size + count
      → file_byte r.1.disk (r.1.disk stored.index_block) p ≡ (
          if ltb p inode.size
          then file_byte fs.disk (fs.disk inode.index_block) p
          else buf (p - inode.size))
  pub layout : HasLayout r.1 stored.index_block
  pub bounded : inode.size + count ≤ 67108864
  pub directory : r.1.disk 5 ≡ fs.disk 5

-- The disk after the loop, with the index block and the inode.
abbrev pub closed : WriteState → Inode → ℕ → ℕ → Fs
closed w inode ib now = stored_inode (put w.fs ib w.idx_data) (grown_inode inode ib w now)

module _ (disk : ℕ → Bytes) (idx buf : Bytes) (size ib now : ℕ) (inode : Inode) (w : WriteState)
    (h : IsAppended disk idx buf inode.size size ib w)
    (valid : no_such inode.inode_no ≡ false) where
  table_block : (inode_block inode.inode_no < 6) × (2 < inode_block inode.inode_no)
  table_block = ground arith

  closed-index : (closed w inode ib now).disk ib ≡ w.idx_data
  closed-index =
      let t = table_block in
      let high = h.layout.index.0 in
      let other : (ib == inode_block inode.inode_no) ≡ false = ground arith in
      let here : (ib == ib) ≡ true = ground arith in rw (other, here) refl

  closed-other :
      (n : ℕ)
      → (n == ib) ≡ false
      → (n == inode_block inode.inode_no) ≡ false
      → (closed w inode ib now).disk n ≡ w.fs.disk n
  closed-other n apart other = rw (other, apart) refl

  pub closed-directory : (closed w inode ib now).disk 5 ≡ disk 5
  closed-directory =
      let t = inode_block-below inode.inode_no valid in
      let high = h.layout.index.0 in
      closed-other 5 (ground arith) (ground arith) ∙ h.low 5 (omega arith) refl

  pub closed-content :
      (p : ℕ)
      → p < inode.size + w.bytes_written
      → file_byte (closed w inode ib now).disk ((closed w inode ib now).disk ib) p
        ≡ (if ltb p inode.size then file_byte disk idx p else buf (p - inode.size))
  closed-content p below =
      let t = table_block in
      let l = h.layout in
      let bounded = h.bounded in
      let k = block_idx p in
      let n = word w.idx_data k in
      ap (λ i. file_byte (closed w inode ib now).disk i p) closed-index
      ∙ elim (Bool-cases (n == 0)) [
        | inl hole ↦ rw hole refl
        | inr block ↦
            let high = (l.taken k (omega arith) block).0 in
            let other : (n == inode_block inode.inode_no) ≡ false = ground arith in
            let same = closed-other n (l.apart k (omega arith)) other in
            rw block (ap (λ b. b (block_off p)) same)
      ]
      ∙ h.content p below

  pub closed-layout : HasLayout (closed w inode ib now) ib
  closed-layout =
      let t = table_block in
      let l = h.layout in
      let high = l.index.0 in
      let bitmap : (closed w inode ib now).disk 1 ≡ w.fs.disk 1 =
        closed-other 1 (ground arith) (ground arith) in
      let e = sym closed-index in
      subst (IsLaidOut (closed w inode ib now) ib) e (record {
        reliable = l.reliable;
        bytes = subst AreBytes (sym bitmap) l.bytes;
        few = l.few;
        index = (high, subst (λ b. (mfs_get_bit b ib == 0) ≡ false) (sym bitmap) l.index.1);
        taken = λ k r block. (
          (l.taken k r block).0,
          subst (λ b. (mfs_get_bit b (word w.idx_data k) == 0) ≡ false) (sym bitmap)
              (l.taken k r block).1,
        );
        apart = l.apart;
        distinct = l.distinct;
      })

  -- Lines 610-624, after some bytes.
  pub finish_write-closed :
      (index : IndexBlock)
      → index.index_block ≡ ib
      → ltb 0 w.bytes_written ≡ true
      → finish_write inode index w now ≡ (done w.bytes_written, closed w inode ib now)
  unfolding finish_write mfs_write_block
  finish_write-closed index same some_bytes =
      let works = h.layout.reliable in
      let put_index = put w.fs ib w.idx_data in
      let inode_done = write_inode-put put_index (grown_inode inode ib w now) works valid in
      rw
        (
          same,
          finish_write,
          some_bytes,
          mfs_write_block,
          works w.fs.clock ib,
          inode_done,
          same,
          mfs_write_block,
          works w.fs.clock ib,
          inode_done,
          some_bytes,
        )
        refl

  -- What the inode table answers behind the write.
  pub closed-inode :
      Fits inode
      → ib < 4294967296
      → now < 18446744073709551616
      → (stored : Inode) × ((read_inode (closed w inode ib now) inode.inode_no).0 ≡ done stored)
        × (stored.size ≡ inode.size + w.bytes_written)
        × (stored.index_block ≡ ib)
  closed-inode fits small later =
      let works = h.layout.reliable in
      let bounded = h.bounded in
      let put_index = put w.fs ib w.idx_data in
      let g = grown_inode inode ib w now in
      let g-Fits : Fits g = record {
        inode_no = fits.inode_no;
        mode = fits.mode;
        size = omega arith;
        block_count = h.counted;
        index_block = small;
        ctime = fits.ctime;
        mtime = later;
        atime = fits.atime;
      } in
      let put_inode = write_inode-put put_index g works valid in
      let s =
        write_inode_lem put_index g (λ k. works k (inode_block inode.inode_no)) g-Fits
          (ground arith) (ground arith) in
      let (j, back, same) = s.back in
      (
        j,
        subst (λ (x : Result ℕ × Fs). (read_inode x.1 inode.inode_no).0 ≡ done j) put_inode back,
        (same.size ∙ omega arith),
        same.index_block,
      )
