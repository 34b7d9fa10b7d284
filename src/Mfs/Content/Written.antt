-- ===== src/Mfs/Content/Written.antt =====
-- What `mfs_write` of Project4/mfs.c does for a path that names a file.
use bilkent_os_projects.Base.{
  ℕ, ◌≤◌, ◌<◌, ◌≡◌, ◌⊎◌, refl, sym, ap, ◌∙◌, subst, true, false, ◌==◌, ltb, Bool-cases, inl, inr,
  arith, some, List, ◌∷◌,
}
use bilkent_os_projects.Mfs.Bitmap.{Bytes}
use bilkent_os_projects.Mfs.Device.{Fs, Errno, put, Result, done, error, enospc, mfs_write_block}
use bilkent_os_projects.Mfs.Inode.{Inode, no_such, read_inode}
use bilkent_os_projects.Mfs.Inode.Laws.{Fits}
use bilkent_os_projects.Mfs.Dir.{path_name, Entry, find_dir_entry}
use bilkent_os_projects.Mfs.Create.Laws.{Reliable, tick}
use bilkent_os_projects.Mfs.Content.Lookup.{IsFile, file-lookups}
use bilkent_os_projects.Mfs.Content.Append.{
  WriteState, IndexBlock, write_loop, grown_inode, finish_write, append_file, mfs_write,
}
use bilkent_os_projects.Mfs.Content.Reading.{file_byte}
use bilkent_os_projects.Mfs.Content.Loop.{IsAppended}
use bilkent_os_projects.Mfs.Content.Outcome.{
  Ended, write_loop_lem, write_inode-put, HasLayout, HasWritten, closed, closed-content,
  closed-directory, closed-layout, finish_write-closed, closed-inode,
}
use bilkent_os_projects.Mfs.Content.Answer.{start_state, CanGrow, loaded, refused, load_index-Loads}

-- A write appends some bytes, or it answers an error.
abbrev pub Appends : Fs → Inode → Bytes → ℕ → Result ℕ × Fs → Type 0
Appends fs inode buf size r = HasWritten fs inode buf size r ⊎ ((e : Errno) × (r.0 ≡ error e))

finish_write-nothing :
    (inode : Inode) (index : IndexBlock) (w : WriteState) (now : ℕ) (e : Errno)
    → Reliable w.fs
    → no_such inode.inode_no ≡ false
    → ltb 0 w.bytes_written ≡ false
    → w.rc ≡ some e
    → (finish_write inode index w now).0 ≡ error e
unfolding finish_write mfs_write_block
finish_write-nothing inode index w now e works valid nothing stop =
    let ib = index.index_block in
    let inode_done =
      write_inode-put (put w.fs ib w.idx_data) (grown_inode inode ib w now) works valid in
    elim (Bool-cases index.allocated_index) [
      | inl new ↦
          rw
            (
              finish_write,
              nothing,
              new,
              mfs_write_block,
              works w.fs.clock ib,
              inode_done,
              nothing,
              stop,
            )
            refl
      | inr old ↦ rw (finish_write, nothing, old, stop) refl
    ]

module _ (fs : Fs) (inode : Inode) (buf : Bytes) (size now : ℕ) (works : Reliable fs)
    (fits : Fits inode) (valid : no_such inode.inode_no ≡ false) (small : inode.size ≤ 67108864)
    (later : now < 18446744073709551616) (more : 0 < size) where
  finish-Appends :
      (index : IndexBlock) (w : WriteState)
      → index.index_block < 4294967296
      → IsAppended fs.disk (fs.disk inode.index_block) buf inode.size size index.index_block w
      → Ended size w
      → Appends fs inode buf size (finish_write inode index w now)
  finish-Appends index w small_index h ended =
      let idx = fs.disk inode.index_block in
      let ib = index.index_block in
      let within = h.within in
      elim (Bool-cases (ltb 0 w.bytes_written)) [
        | inr nothing ↦ elim ended [
          | inl (ok, all) ↦ absurd (ground arith)
          | inr (e, stop) ↦
              inr (e, finish_write-nothing inode index w now e h.layout.reliable valid nothing stop)
        ]
        | inl some_bytes ↦
            let d =
              finish_write-closed fs.disk idx buf size ib now inode w h valid index refl
                some_bytes in
            let (j, back, size', index') =
              closed-inode fs.disk idx buf size ib now inode w h valid fits small_index later in
            let c = closed-content fs.disk idx buf size ib now inode w h valid in
            let l = closed-layout fs.disk idx buf size ib now inode w h valid in
            inl (
              subst (HasWritten fs inode buf size) (sym d) (record {
                count = w.bytes_written;
                answer = refl;
                bounds = (ground arith, within);
                stored = j;
                read_back = back;
                new_size = size';
                content = λ p below.
                    ap
                      (λ i.
                        file_byte (closed w inode ib now).disk ((closed w inode ib now).disk i) p)
                      index'
                    ∙ c p below;
                layout = subst (HasLayout (closed w inode ib now)) (sym index') l;
                bounded = h.bounded;
                directory = closed-directory fs.disk idx buf size ib now inode w h valid;
              }))
      ]

  append_file-Appends :
      CanGrow fs inode → Appends fs inode buf size (append_file fs inode buf size inode.size now)
  unfolding append_file
  append_file-Appends can =
      let here : (inode.size == inode.size) ≡ true = ground arith in
      elim (load_index-Loads fs inode buf size works fits small can) [
        | refused fs' e ↦ rw (append_file, here, e, e) (inr (enospc, refl))
        | loaded index fs' e small_index h ↦
            let (h', ended) =
              write_loop_lem size fs.disk (fs.disk inode.index_block) buf inode.size size
                index.index_block (start_state fs' inode index) refl (omega arith) h in
            rw (append_file, here, e, e)
              (finish-Appends index
                (write_loop size (start_state fs' inode index) buf inode.size size) small_index h'
                ended)
      ]

later-CanGrow : (fs : Fs) (inode : Inode) → CanGrow fs inode → CanGrow (tick (tick fs)) inode
later-CanGrow fs inode (inr e) = inr e
later-CanGrow fs inode (inl (indexed, l)) = inl (
  indexed,
  record {
    reliable = l.reliable;
    bytes = l.bytes;
    few = l.few;
    index = l.index;
    taken = l.taken;
    apart = l.apart;
    distinct = l.distinct;
  },
)

mfs_write-found :
    (fs : Fs) (path : List ℕ) (inode : Inode) (buf : Bytes) (size offset now c : ℕ) (name : List ℕ)
    (entry : Entry)
    → (size == 0) ≡ false
    → path_name path ≡ some (c ∷ name)
    → find_dir_entry fs (c ∷ name) ≡ (done entry, tick fs)
    → read_inode (tick fs) entry.inode_no ≡ (done inode, tick (tick fs))
    → mfs_write fs path buf size offset now ≡ append_file (tick (tick fs)) inode buf size offset now
unfolding mfs_write
mfs_write-found fs path inode buf size offset now c name entry some_bytes named found read =
    rw (mfs_write, some_bytes, named, found, found, read, found, read) refl

-- On a device that never fails, for a path that names a file of at most 4096 blocks whose blocks are in
-- order (or an empty file without an index block), `mfs_write` of some bytes at the end of the file
-- answers an error, or it answers that it wrote a positive number of them: then the inode has the new
-- size, the file has its old bytes and behind them those of the buffer, and its blocks are in order.
pub mfs_write_lem :
    (fs : Fs) (path : List ℕ) (inode : Inode) (buf : Bytes) (size now : ℕ)
    → Reliable fs
    → IsFile fs path inode
    → Fits inode
    → no_such inode.inode_no ≡ false
    → inode.size ≤ 67108864
    → CanGrow fs inode
    → now < 18446744073709551616
    → 0 < size
    → Appends fs inode buf size (mfs_write fs path buf size inode.size now)
mfs_write_lem fs path inode buf size now works file fits valid small can later more =
    let (found, read) = file-lookups fs path inode works file in
    let whole =
      mfs_write-found fs path inode buf size inode.size now file.first file.rest file.entry
        (ground arith) file.named found read in
    let r =
      append_file-Appends (tick (tick fs)) inode buf size now works fits valid small later more
        (later-CanGrow fs inode can) in
    subst (Appends fs inode buf size) (sym whole) (elim r [
      | inr e ↦ inr e
      | inl h ↦ inl (record {
        count = h.count;
        answer = h.answer;
        bounds = h.bounds;
        stored = h.stored;
        read_back = h.read_back;
        new_size = h.new_size;
        content = h.content;
        layout = h.layout;
        bounded = h.bounded;
        directory = h.directory;
      })
    ])
