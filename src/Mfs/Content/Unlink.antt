-- ===== src/Mfs/Content/Unlink.antt =====
-- What `mfs_unlink` of Project4/mfs.c leaves on the disk (lines 363-420).
use bilkent_os_projects.Base.{
  ℕ, ◌-◌, ◌*◌, ◌≤◌, ◌<◌, ◌≡◌, refl, sym, ap, ◌∙◌, subst, false, ◌==◌, if◌then◌else◌, arith, List,
  ◌∷◌, none, some, length,
}
use bilkent_os_projects.Mfs.Bitmap.{Bytes, mfs_get_bit}
use bilkent_os_projects.Mfs.Bitmap.Laws.{AreBytes}
use bilkent_os_projects.Mfs.Device.{Fs, Result, done, error, enoent, put}
use bilkent_os_projects.Mfs.Alloc.{free_inode}
use bilkent_os_projects.Mfs.Alloc.Laws.{free_inode_lem}
use bilkent_os_projects.Mfs.Inode.{Inode, splice, no_such, read_inode, write_inode, inode_block}
use bilkent_os_projects.Mfs.Inode.Laws.{Fits, Same, read_inode-same, write_inode_lem}
use bilkent_os_projects.Mfs.Dir.{
  path_name, entry_at, entry_inode, has_name, search_name, find_dir_entry, write_root_dir,
}
use bilkent_os_projects.Mfs.Dir.Find.{search_name-cleared}
use bilkent_os_projects.Mfs.Create.{free_data, empty_inode, unlink_at, mfs_unlink}
use bilkent_os_projects.Mfs.Create.Laws.{Reliable, tick, write_dir, read_dir, find_at, find_nothing}
use bilkent_os_projects.Mfs.Content.Lookup.{read_inode-Reliable}
use bilkent_os_projects.Mfs.Content.Outcome.{stored_inode, write_inode-put}
use bilkent_os_projects.Mfs.Content.Freed.{HasDataBlocks, file_blocks, free_data-Frees}

-- A file whose inode is `number`, not the root's, on a device that never fails.
pub record IsOwned (fs : Fs) (inode : Inode) (number : ℕ) : Type 0 where
  pub reliable : Reliable fs
  pub block_bytes : AreBytes (fs.disk 1)
  pub inode_bytes : AreBytes (fs.disk 2)
  pub above : 1 < number
  pub below : number ≤ 256
  pub has_inode : (read_inode fs number).0 ≡ done inode
  pub data_blocks : HasDataBlocks fs inode

-- The disk without the file.
pub record Unlinked (fs : Fs) (inode : Inode) (slot number : ℕ) (r : Result ℕ × Fs) : Type 0 where
  pub answer : r.0 ≡ done 0
  pub directory : r.1.disk 5 ≡ splice (fs.disk 5) (64 * slot) 64 (λ k. 0)
  pub inode_bits :
      (j : ℕ)
      → mfs_get_bit (r.1.disk 2) j ≡ (if j == number - 1 then 0 else mfs_get_bit (fs.disk 2) j)
  pub block_bits :
      (j : ℕ)
      → mfs_get_bit (r.1.disk 1) j
        ≡ (if file_blocks inode (fs.disk inode.index_block) j then 0 else mfs_get_bit (fs.disk 1) j)
  pub cleared : (j : Inode) × ((read_inode r.1 number).0 ≡ done j) × Same (empty_inode number) j
  pub reliable : Reliable r.1

-- The inode table takes blocks 3 and 4.
in_table :
    (n m : ℕ) → 1 ≤ n → n ≤ 256 → (m == 3) ≡ false → (m == 4) ≡ false → (m == inode_block n) ≡ false
in_table n m low high a b = ground arith

in_table_bitmap : (n : ℕ) → 1 ≤ n → n ≤ 256 → (inode_block n == 2) ≡ false
in_table_bitmap n low high = ground arith

empty_inode-Fits : (n : ℕ) → n ≤ 256 → Fits (empty_inode n)
empty_inode-Fits n h = record {
  inode_no = omega arith;
  mode = omega arith;
  size = omega arith;
  block_count = omega arith;
  index_block = omega arith;
  ctime = omega arith;
  mtime = omega arith;
  atime = omega arith;
}

-- The rest of `unlink_at` for the number in the entry.
abbrev unlink_number : Fs → Bytes → ℕ → Result ℕ × Fs
unlink_number fs d number =
    let (rc, fs₁) = write_root_dir (free_data fs number) d in
    let (rc', fs₂) = write_inode fs₁ (empty_inode number) in
    elim rc [
      | error e ↦ (error e, fs₁)
      | done _ ↦ elim rc' [ error e ↦ (error e, fs₂) | done _ ↦ free_inode fs₂ number ]
    ]

-- The operations of the device that work.
unlink_at-puts :
    (fs : Fs) (b : Bytes) (slot : ℕ)
    → (number : ℕ) → entry_inode (entry_at b slot) ≡ number
    → Reliable (free_data fs number)
    → no_such number ≡ false
    → unlink_at fs b slot
      ≡ free_inode
          (stored_inode
            (put (free_data fs number) 5 (splice b (64 * slot) 64 (λ k. 0)))
            (empty_inode number))
          number
unfolding unlink_at
unlink_at-puts fs b slot number same works valid =
    let d = splice b (64 * slot) 64 (λ k. 0) in
    let wrote = write_inode-put (put (free_data fs number) 5 d) (empty_inode number) works valid in
    let written = write_dir (free_data fs number) d works in
    ap (unlink_number fs d) same ∙ rw (unlink_number, written, written, wrote, written, wrote) refl

unlink_at_lem :
    (fs : Fs) (inode : Inode) (slot number : ℕ)
    → entry_inode (entry_at (fs.disk 5) slot) ≡ number
    → IsOwned fs inode number
    → Unlinked fs inode slot number (unlink_at fs (fs.disk 5) slot)
unfolding unlink_at
unlink_at_lem fs inode slot number same own =
    let above = own.above in
    let below = own.below in
    let works = own.reliable in
    let read = read_inode-Reliable fs number inode works own.has_inode in
    let freed = free_data-Frees fs number inode works own.block_bytes read own.data_blocks in
    let fs₀ = free_data fs number in
    let works₀ = freed.reliable in
    let d = splice (fs.disk 5) (64 * slot) 64 (λ k. 0) in
    let fs₁ = put fs₀ 5 d in
    let e = empty_inode number in
    let stored =
      write_inode_lem fs₁ e (λ k. works₀ k (inode_block number)) (empty_inode-Fits number below)
        (omega arith) below in
    let fs₂ = stored_inode fs₁ e in
    let valid : no_such number ≡ false = ground arith in
    let wrote : write_inode fs₁ e ≡ (done 0, fs₂) = write_inode-put fs₁ e works₀ valid in
    let kept : (m : ℕ) → (m == 3) ≡ false → (m == 4) ≡ false → fs₂.disk m ≡ fs₁.disk m =
      λ m a b. rw (in_table number m (omega arith) below a b) refl in
    let bitmap : fs₂.disk 2 ≡ fs.disk 2 = kept 2 refl refl ∙ freed.others 2 refl in
    let took =
      free_inode_lem fs₂ number (λ k. works₀ k 2) (subst AreBytes (sym bitmap) own.inode_bytes)
        above below in
    let r = free_inode fs₂ number in
    let w = took.writes in
    let works' : Reliable r.1 = λ k m. w.device k m ∙ works₀ k m in
    let (j, back, same_fields) = stored.back in
    let back_at : (read_inode fs₂ number).0 ≡ done j =
      subst (λ (x : Result ℕ × Fs). (read_inode x.1 number).0 ≡ done j) wrote back in
    rw (unlink_at-puts fs (fs.disk 5) slot number same works₀ valid) (record {
      answer = took.answer;
      directory = w.others 5 refl ∙ kept 5 refl refl;
      inode_bits = λ i. w.bits i ∙ ap (λ b. if i == number - 1 then 0 else mfs_get_bit b i) bitmap;
      block_bits =
          λ i. ap (λ b. mfs_get_bit b i) (w.others 1 refl ∙ kept 1 refl refl) ∙ freed.bits i;
      cleared = (
        j,
        read_inode-same fs₂ r.1 number works₀ works'
              (w.others (inode_block number) (in_table_bitmap number (omega arith) below))
            ∙ back_at,
        same_fields,
      );
      reliable = works';
    })

-- The lookups change nothing on the disk.
mfs_unlink-found :
    (fs : Fs) (path : List ℕ) (c : ℕ) (name : List ℕ) (slot : ℕ)
    → Reliable fs
    → path_name path ≡ some (c ∷ name)
    → search_name (c ∷ name) (fs.disk 5) 0 256 ≡ some slot
    → mfs_unlink fs path ≡ unlink_at (tick (tick fs)) (fs.disk 5) slot
unfolding mfs_unlink
mfs_unlink-found fs path c name slot works named found =
    let there =
      find_at fs (c ∷ name) slot (entry_inode (entry_at (fs.disk 5) slot)) works found refl in
    rw (mfs_unlink, named, there, there, read_dir (tick fs) works, there, read_dir (tick fs) works)
      refl

-- On a device that never fails, for a path that names an entry of the directory, the only one with that
-- name, whose inode is not the root's and whose blocks are data blocks of the disk, `mfs_unlink`
-- answers 0; of the directory it clears that entry and nothing else, so that the name is found no more; of
-- the block bitmap it clears the bits of the file's blocks and of its index block, if it has one, and
-- no others, of the inode bitmap the bit of its inode and no other; and the inode in the table is empty.
pub mfs_unlink_lem :
    (fs : Fs) (path : List ℕ) (inode : Inode) (c : ℕ) (name : List ℕ) (slot number : ℕ)
    → path_name path ≡ some (c ∷ name)
    → length (c ∷ name) ≤ 31
    → search_name (c ∷ name) (fs.disk 5) 0 256 ≡ some slot
    → ((j : ℕ)
        → (j == slot) ≡ false
        → j < 256
        → has_name (c ∷ name) (entry_at (fs.disk 5) j) ≡ false)
    → entry_inode (entry_at (fs.disk 5) slot) ≡ number
    → IsOwned fs inode number
    → Unlinked fs inode slot number (mfs_unlink fs path)
      × ((find_dir_entry (mfs_unlink fs path).1 (c ∷ name)).0 ≡ error enoent)
mfs_unlink_lem fs path inode c name slot number named short found only same own =
    let later = tick (tick fs) in
    let own' : IsOwned later inode number = record {
      reliable = own.reliable;
      block_bytes = own.block_bytes;
      inode_bytes = own.inode_bytes;
      above = own.above;
      below = own.below;
      has_inode = read_inode-same fs later number own.reliable own.reliable refl ∙ own.has_inode;
      data_blocks = record { index = own.data_blocks.index; listed = own.data_blocks.listed };
    } in
    let u = unlink_at_lem later inode slot number same own' in
    let r = unlink_at later (fs.disk 5) slot in
    let absent : search_name (c ∷ name) (r.1.disk 5) 0 256 ≡ none =
      ap (λ b. search_name (c ∷ name) b 0 256) u.directory
      ∙ search_name-cleared (c ∷ name) (fs.disk 5) slot short only in
    rw (mfs_unlink-found fs path c name slot own.reliable named found) (
      record {
        answer = u.answer;
        directory = u.directory;
        inode_bits = u.inode_bits;
        block_bits = u.block_bits;
        cleared = u.cleared;
        reliable = u.reliable;
      },
      ap (λ x. x.0) (find_nothing r.1 (c ∷ name) u.reliable absent),
    )
