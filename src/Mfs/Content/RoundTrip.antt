-- ===== src/Mfs/Content/RoundTrip.antt =====
-- `mfs_read` of Project4/mfs.c reads what `mfs_write` wrote.
use bilkent_os_projects.Base.{
  ℕ, ◌+◌, ◌-◌, ◌≤◌, ◌<◌, ◌≡◌, refl, sym, ap, ◌∙◌, subst, true, false, ltb, leb, ◌&&◌, inl, inr,
  arith, List, ◌∷◌, Option-cases,
}
use bilkent_os_projects.Mfs.Bitmap.{Bytes}
use bilkent_os_projects.Mfs.Device.{Fs, Result, done}
use bilkent_os_projects.Mfs.Inode.{Inode, no_such, read_inode}
use bilkent_os_projects.Mfs.Inode.Laws.{Fits}
use bilkent_os_projects.Mfs.Dir.{find_dir_entry, search_name, entry_inode, entry_at}
use bilkent_os_projects.Mfs.Create.Laws.{Reliable, find_at, find_nothing}
use bilkent_os_projects.Mfs.Content.{ReadState, mfs_read, smaller}
use bilkent_os_projects.Mfs.Content.Reading.{readable}
use bilkent_os_projects.Mfs.Content.Lookup.{IsFile, mfs_read_lem}
use bilkent_os_projects.Mfs.Content.Append.{mfs_write}
use bilkent_os_projects.Mfs.Content.Outcome.{HasWritten}
use bilkent_os_projects.Mfs.Content.Answer.{CanGrow}
use bilkent_os_projects.Mfs.Content.Written.{mfs_write_lem}

-- The search depends on the directory only.
find_dir_entry-same :
    (fs fs' : Fs) (name : List ℕ)
    → Reliable fs
    → Reliable fs'
    → fs'.disk 5 ≡ fs.disk 5
    → (find_dir_entry fs' name).0 ≡ (find_dir_entry fs name).0
find_dir_entry-same fs fs' name works works' e =
    elim (Option-cases (search_name name (fs.disk 5) 0 256)) [
      | inl absent ↦
          ap (λ x. x.0)
            (find_nothing fs' name works' (ap (λ d. search_name name d 0 256) e ∙ absent))
          ∙ sym (ap (λ x. x.0) (find_nothing fs name works absent))
      | inr (slot, found) ↦
          let number = entry_inode (entry_at (fs.disk 5) slot) in
          ap (λ x. x.0)
            (find_at fs' name slot number works' (ap (λ d. search_name name d 0 256) e ∙ found)
              (ap (λ d. entry_inode (entry_at d slot)) e))
          ∙ sym (ap (λ x. x.0) (find_at fs name slot number works found refl))
    ]

-- What was read is what was written.
pub record ReadsBack (buf : Bytes) (count : ℕ) (r : ReadState) : Type 0 where
  pub answer : r.answer ≡ done count
  pub bytes : (j : ℕ) → j < count → r.buf j ≡ buf j

HasWritten-ReadsBack :
    (fs : Fs) (path : List ℕ) (inode : Inode) (buf out : Bytes) (size : ℕ) (r : Result ℕ × Fs)
    → Reliable fs
    → (file : IsFile fs path inode) → file.entry.inode_no ≡ inode.inode_no
    → (h : HasWritten fs inode buf size r)
    → ReadsBack buf h.count (mfs_read r.1 path out h.count inode.size)
HasWritten-ReadsBack fs path inode buf out size r works file numbered h =
    let works' = h.layout.reliable in
    let name = file.first ∷ file.rest in
    let bounds = h.bounds in
    let high = h.layout.index.0 in
    let total : readable h.count h.stored inode.size ≡ h.count =
      ap (λ s. smaller h.count (s - inode.size)) h.new_size ∙ (ground arith) in
    let file' : IsFile r.1 path h.stored = record {
      first = file.first;
      rest = file.rest;
      entry = file.entry;
      named = file.named;
      found = find_dir_entry-same fs r.1 name works works' h.directory ∙ file.found;
      has_inode = subst (λ n. (read_inode r.1 n).0 ≡ done h.stored) (sym numbered) h.read_back;
    } in
    let read =
      mfs_read_lem r.1 path h.stored out h.count inode.size works' file' (ground arith)
        (ground arith) (subst (λ s. s ≤ 67108864) (sym h.new_size) h.bounded) in
    record {
      answer = read.answer ∙ ap done total;
      bytes = λ j below.
          let inside : (leb 0 j && ltb j (readable h.count h.stored inode.size)) ≡ true =
            rw total (ground arith) in
          let behind : ltb (inode.size + j) inode.size ≡ false = ground arith in
          read.bytes j
          ∙ rw (inside)
              (h.content (inode.size + j) (omega arith) ∙ rw behind (ap buf (omega arith)));
    }

done-inj : {m n : ℕ} → done m ≡ done n → m ≡ n
done-inj {m} {n} e = cc e

-- On a device that never fails, for a path that names a file of at most 4096 blocks whose blocks are in
-- order (or an empty file without an index block): if `mfs_write` of some bytes at the end of the
-- file answers that it wrote `count` of them, then `mfs_read` of as many from there on answers
-- `count`, with those bytes in the buffer.
pub mfs_read-mfs_write :
    (fs : Fs) (path : List ℕ) (inode : Inode) (buf out : Bytes) (size now count : ℕ)
    → Reliable fs
    → (file : IsFile fs path inode) → file.entry.inode_no ≡ inode.inode_no
    → Fits inode
    → no_such inode.inode_no ≡ false
    → inode.size ≤ 67108864
    → CanGrow fs inode
    → now < 18446744073709551616
    → 0 < size
    → (mfs_write fs path buf size inode.size now).0 ≡ done count
    → let fs' = (mfs_write fs path buf size inode.size now).1 in
      ReadsBack buf count (mfs_read fs' path out count inode.size)
mfs_read-mfs_write fs path inode buf out size now count works file numbered fits valid small can
      later more answered =
    let fs' = (mfs_write fs path buf size inode.size now).1 in
    elim (mfs_write_lem fs path inode buf size now works file fits valid small can later more) [
      | inr (e, failed) ↦ cc
      | inl h ↦
          let same : h.count ≡ count = done-inj (sym h.answer ∙ answered) in
          subst (λ n. ReadsBack buf n (mfs_read fs' path out n inode.size)) same
            (HasWritten-ReadsBack fs path inode buf out size
              (mfs_write fs path buf size inode.size now) works file numbered h)
    ]
