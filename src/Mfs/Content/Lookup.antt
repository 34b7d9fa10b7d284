-- ===== src/Mfs/Content/Lookup.antt =====
-- What `mfs_read` of Project4/mfs.c answers for a path.
use bilkent_os_projects.Base.{
  ℕ, ◌≤◌, ◌≡◌, refl, sym, ap, ◌∙◌, subst, false, some, List, ◌∷◌, ◌==◌, Bool-cases, Option-cases,
  inl, inr,
}
use bilkent_os_projects.Mfs.Bitmap.{Bytes}
use bilkent_os_projects.Mfs.Device.{Fs, done, mfs_read_block}
use bilkent_os_projects.Mfs.Inode.{Inode, read_inode, no_such, inode_block}
use bilkent_os_projects.Mfs.Inode.Laws.{read_inode-same}
use bilkent_os_projects.Mfs.Dir.{
  path_name, Entry, find_dir_entry, search_name, entry_inode, entry_at,
}
use bilkent_os_projects.Mfs.Create.Laws.{Reliable, tick, find_at, find_nothing}
use bilkent_os_projects.Mfs.Content.{read_file, mfs_read}
use bilkent_os_projects.Mfs.Content.Reading.{HasRead, readable, read_file_lem}

-- The lookups before a read or a write cost one operation of the device each.
pub find_dir_entry-Reliable :
    (fs : Fs) (name : List ℕ) → Reliable fs → (find_dir_entry fs name).1 ≡ tick fs
find_dir_entry-Reliable fs name works = elim (Option-cases (search_name name (fs.disk 5) 0 256)) [
  | inl absent ↦ ap (λ x. x.1) (find_nothing fs name works absent)
  | inr (slot, found) ↦
      ap (λ x. x.1)
        (find_at fs name slot (entry_inode (entry_at (fs.disk 5) slot)) works found refl)
]

pub read_inode-Reliable :
    (fs : Fs) (n : ℕ) (inode : Inode)
    → Reliable fs
    → (read_inode fs n).0 ≡ done inode
    → read_inode fs n ≡ (done inode, tick fs)
unfolding read_inode mfs_read_block
read_inode-Reliable fs n inode works h = elim (Bool-cases (no_such n)) [
  | inl invalid ↦ cc (rw (read_inode, invalid) at h)
  | inr valid ↦
      let later : (read_inode fs n).1 ≡ tick fs =
        rw (read_inode, valid, mfs_read_block, works fs.clock (inode_block n)) refl in
      λ i. (h i, later i)
]

-- The lookups of a path that names a file.
pub record IsFile (fs : Fs) (path : List ℕ) (inode : Inode) : Type 0 where
  pub first : ℕ
  pub rest : List ℕ
  pub entry : Entry
  pub named : path_name path ≡ some (first ∷ rest)
  pub found : (find_dir_entry fs (first ∷ rest)).0 ≡ done entry
  pub has_inode : (read_inode fs entry.inode_no).0 ≡ done inode

pub file-lookups :
    (fs : Fs) (path : List ℕ) (inode : Inode)
    → Reliable fs
    → (file : IsFile fs path inode)
    → (find_dir_entry fs (file.first ∷ file.rest) ≡ (done file.entry, tick fs))
      × (read_inode (tick fs) file.entry.inode_no ≡ (done inode, tick (tick fs)))
file-lookups fs path inode works file =
    let name = file.first ∷ file.rest in
    let later = find_dir_entry-Reliable fs name works in
    let same = read_inode-same fs (tick fs) file.entry.inode_no works works refl in
    (
      λ i. (file.found i, later i),
      read_inode-Reliable (tick fs) file.entry.inode_no inode works (same ∙ file.has_inode),
    )

mfs_read-found :
    (fs : Fs) (path : List ℕ) (inode : Inode) (buf : Bytes) (size offset c : ℕ) (name : List ℕ)
    (entry : Entry)
    → (size == 0) ≡ false
    → path_name path ≡ some (c ∷ name)
    → find_dir_entry fs (c ∷ name) ≡ (done entry, tick fs)
    → read_inode (tick fs) entry.inode_no ≡ (done inode, tick (tick fs))
    → mfs_read fs path buf size offset ≡ read_file (tick (tick fs)) inode buf size offset
unfolding mfs_read
mfs_read-found fs path inode buf size offset c name entry some_bytes named found read =
    rw (mfs_read, some_bytes, named, found, found, read, found, read) refl

-- On a device that never fails, for a path that names a file of at most 4096 blocks with an index block,
-- and a size that is not 0, `mfs_read` answers the number of bytes that the file has from the offset
-- on, at most `size`; it puts exactly those bytes of the file into the buffer, zeros where the file
-- has no block, and changes nothing else in the buffer and nothing on the disk.
pub mfs_read_lem :
    (fs : Fs) (path : List ℕ) (inode : Inode) (buf : Bytes) (size offset : ℕ)
    → Reliable fs
    → IsFile fs path inode
    → (size == 0) ≡ false
    → (inode.index_block == 0) ≡ false
    → inode.size ≤ 67108864
    → HasRead fs
        (fs.disk inode.index_block)
        buf
        offset
        0
        (readable size inode offset)
        (mfs_read fs path buf size offset)
unfolding mfs_read
mfs_read_lem fs path inode buf size offset works file some_bytes indexed small =
    let (found, read) = file-lookups fs path inode works file in
    let r = read_file_lem (tick (tick fs)) inode buf size offset works indexed small in
    let whole : mfs_read fs path buf size offset
        ≡ read_file (tick (tick fs)) inode buf size offset =
      mfs_read-found fs path inode buf size offset file.first file.rest file.entry some_bytes
        file.named found read in
    subst (HasRead fs (fs.disk inode.index_block) buf offset 0 (readable size inode offset))
      (sym whole) (record { answer = r.answer; bytes = r.bytes; disk = r.disk })
