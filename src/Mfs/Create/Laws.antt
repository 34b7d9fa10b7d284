-- ===== src/Mfs/Create/Laws.antt =====
-- A file that `mfs_create` of Project4/mfs.c made is found under its name.
use Prim.Native.Nat.{bit_and, bit_or}
use bilkent_os_projects.Base.{
  ℕ, zero, suc, ◌+◌, ◌*◌, ◌≤◌, ◌<◌, ◌≡◌, refl, ap, sym, subst, ◌∙◌, true, false, none, some, List,
  ◌∷◌, length, ◌==◌, ltb, Bool-cases, inl, inr, arith,
}
use bilkent_os_projects.Mfs.Bitmap.{Bytes, mfs_get_bit}
use bilkent_os_projects.Mfs.Bitmap.Laws.{AreBytes}
use bilkent_os_projects.Mfs.Device.{
  Fs, put, Result, done, error, enoent, mfs_read_block, mfs_write_block,
}
use bilkent_os_projects.Mfs.Alloc.{allocate_inode}
use bilkent_os_projects.Mfs.Alloc.Laws.{allocate_inode_lem}
use bilkent_os_projects.Mfs.Inode.{Inode, splice, inode_block, read_inode, write_inode}
use bilkent_os_projects.Mfs.Inode.Laws.{Same, write_inode_lem, read_inode-same}
use bilkent_os_projects.Mfs.Dir.{
  path_name, search_name, is_used, entry_at, entry_inode, find_dir_entry, read_root_dir,
  write_root_dir, mfs_getattr, stat_of,
}
use bilkent_os_projects.Mfs.Dir.Attributes.{filled-Same}
use bilkent_os_projects.Mfs.Dir.Names.{entry_inode-new}
use bilkent_os_projects.Mfs.Dir.Find.{search_name-new}
use bilkent_os_projects.Mfs.Create.{new_entry, new_inode, unused_entry, create_in, mfs_create}

-- The device never fails.
abbrev pub Reliable : Fs → Type 0
Reliable fs = (k n : ℕ) → fs.works k n ≡ true

-- What is on the disk after a file was made: its entry and its inode.
pub record Made (b : Bytes) (name : List ℕ) (mode now slot number : ℕ) (r : Result ℕ × Fs)
    : Type 0 where
  pub answer : r.0 ≡ done 0
  pub reliable : Reliable r.1
  pub directory : r.1.disk 5 ≡ splice b (64 * slot) 64 (new_entry number name)
  pub inode :
      (j : Inode) × ((read_inode r.1 number).0 ≡ done j) × Same (new_inode number mode now) j
  pub small : number < 4294967296

-- Some inode is free.
pub record HasFreeInode (fs : Fs) : Type 0 where
  pub index : ℕ
  pub above : 1 ≤ index
  pub below : index < 256
  pub free : (mfs_get_bit (fs.disk 2) index == 0) ≡ true

not_root_dir : (n : ℕ) → n ≤ 256 → (inode_block n == 5) ≡ false
not_root_dir n h = ground arith

pub write_dir : (fs : Fs) (b : Bytes) → Reliable fs → write_root_dir fs b ≡ (done 0, put fs 5 b)
unfolding write_root_dir mfs_write_block
write_dir fs b works = rw (write_root_dir, mfs_write_block, works fs.clock 5) refl

create_in_lem :
    (fs : Fs) (name : List ℕ) (mode now : ℕ) (b : Bytes) (slot : ℕ)
    → Reliable fs
    → AreBytes (fs.disk 2)
    → HasFreeInode fs
    → bit_or 32768 (bit_and mode 511) < 4294967296
    → now < 18446744073709551616
    → (number : ℕ) × Made b name mode now slot number (create_in fs name mode now b slot)
unfolding create_in
create_in_lem fs name mode now b slot works bytes has mode_fits now_fits =
    elim (allocate_inode_lem fs (λ k. works k 2) bytes) [
      | inr (full, _) ↦ cc (full has.index has.above has.below, has.free)
      | inl (i, f, took) ↦
          let fs₁ = (allocate_inode fs).1 in
          let number = i + 1 in
          let above = f.above in
          let below = f.below in
          let works₁ = λ (k m : ℕ). took.writes.device k m ∙ works k m in
          let stored =
            write_inode_lem fs₁ (new_inode number mode now) (λ k. works₁ k (inode_block number))
              (omega arith) (omega arith) (omega arith) in
          let fs₂ = (write_inode fs₁ (new_inode number mode now)).1 in
          let works₂ = λ (k m : ℕ). stored.device k m ∙ works₁ k m in
          let d = splice b (64 * slot) 64 (new_entry number name) in
          let (j, back, same) = stored.back in
          let stays =
            read_inode-same fs₂ (put fs₂ 5 d) number works₂ works₂
              (rw (not_root_dir number (omega arith)) refl) in
          (
            number,
            rw (create_in, took.answer, stored.answer, write_dir fs₂ d works₂)
                (record {
                  answer = refl;
                  reliable = works₂;
                  directory = refl;
                  inode = (j, stays ∙ back, same);
                  small = omega arith;
                }),
          )
    ]

same_place : (lo slot n : ℕ) → some lo ≡ some slot → slot < lo + suc n
same_place lo slot n e = let same : lo ≡ slot = cc e in omega arith

unused_entry-below : (b : Bytes) (lo n slot : ℕ) → unused_entry b lo n ≡ some slot → slot < lo + n
unfolding unused_entry
unused_entry-below b lo zero slot h = cc
unused_entry-below b lo (suc n) slot h = elim (Bool-cases (is_used (entry_at b lo))) [
  | inl used ↦ omega (arith, unused_entry-below b (suc lo) n slot (rw (unused_entry, used) at h))
  | inr unused ↦
      let e : some lo ≡ some slot = rw (unused_entry, unused) at h in same_place lo slot n e
]

-- One operation of the device later.
abbrev pub tick : Fs → Fs
tick fs = record fs { clock = fs.clock + 1 }

pub read_dir : (fs : Fs) → Reliable fs → read_root_dir fs ≡ (done (fs.disk 5), tick fs)
unfolding read_root_dir mfs_read_block
read_dir fs works = rw (read_root_dir, mfs_read_block, works fs.clock 5) refl

-- On a reliable device a search reads the directory that is there.
pub find_at :
    (fs : Fs) (name : List ℕ) (slot number : ℕ)
    → Reliable fs
    → search_name name (fs.disk 5) 0 256 ≡ some slot
    → entry_inode (entry_at (fs.disk 5) slot) ≡ number
    → find_dir_entry fs name ≡ (done (record { index = slot; inode_no = number }), tick fs)
unfolding find_dir_entry
find_at fs name slot number works found same =
    rw (find_dir_entry, read_dir fs works, found, read_dir fs works)
      (ap (λ n. (done (record { index = slot; inode_no = n }), tick fs)) same)

pub find_nothing :
    (fs : Fs) (name : List ℕ)
    → Reliable fs
    → search_name name (fs.disk 5) 0 256 ≡ none
    → find_dir_entry fs name ≡ (error enoent, tick fs)
unfolding find_dir_entry
find_nothing fs name works absent =
    rw (find_dir_entry, read_dir fs works, absent, read_dir fs works) refl

-- Before the file is there, `mfs_create` comes down to `create_in`.
create_guards :
    (fs : Fs) (path : List ℕ) (c : ℕ) (name : List ℕ) (mode now slot : ℕ)
    → Reliable fs
    → path_name path ≡ some (c ∷ name)
    → length (c ∷ name) ≤ 31
    → search_name (c ∷ name) (fs.disk 5) 0 256 ≡ none
    → unused_entry (fs.disk 5) 2 254 ≡ some slot
    → mfs_create fs path mode now ≡ create_in (tick (tick fs)) (c ∷ name) mode now (fs.disk 5) slot
unfolding mfs_create
create_guards fs path c name mode now slot works named short absent room =
    let test : ltb 31 (length (c ∷ name)) ≡ false = ground arith in
    rw
      (
        mfs_create,
        named,
        find_nothing fs (c ∷ name) works absent,
        test,
        find_nothing fs (c ∷ name) works absent,
        read_dir (tick fs) works,
        room,
        find_nothing fs (c ∷ name) works absent,
        read_dir (tick fs) works,
      )
      refl

-- What the other operations say of a file that was made.
pub record Created (path name : List ℕ) (mode now slot : ℕ) (r : Result ℕ × Fs) : Type 0 where
  pub answer : r.0 ≡ done 0
  pub number : ℕ
  pub found : (find_dir_entry r.1 name).0 ≡ done (record { index = slot; inode_no = number })
  pub inode :
      (j : Inode) × ((read_inode r.1 number).0 ≡ done j) × Same (new_inode number mode now) j
  pub attributes : (mfs_getattr r.1 path).0 ≡ done (stat_of (new_inode number mode now))

Made-Created :
    (path : List ℕ) (c : ℕ) (name : List ℕ) (b : Bytes) (mode now slot number : ℕ)
    → (r : Result ℕ × Fs) → path_name path ≡ some (c ∷ name)
    → length (c ∷ name) ≤ 31
    → search_name (c ∷ name) b 0 256 ≡ none
    → slot < 256
    → Made b (c ∷ name) mode now slot number r
    → Created path (c ∷ name) mode now slot r
unfolding mfs_getattr
Made-Created path c name b mode now slot number r named short absent high m =
    let found =
      find_at r.1 (c ∷ name) slot number m.reliable
        (subst (λ d. search_name (c ∷ name) d 0 256 ≡ some slot) (sym m.directory)
          (search_name-new (c ∷ name) b slot number short high absent))
        (subst (λ d. entry_inode (entry_at d slot) ≡ number) (sym m.directory)
          (entry_inode-new b slot number (c ∷ name) m.small)) in
    let (j, read, same) = m.inode in
    let later = tick r.1 in
    record {
      answer = m.answer;
      number = number;
      found = ap (λ x. x.0) found;
      inode = m.inode;
      attributes =
          rw (mfs_getattr, named, found, found)
            (filled-Same (new_inode number mode now) j (read_inode later number)
              (read_inode-same r.1 later number m.reliable m.reliable refl ∙ read) same);
    }

-- On a reliable device, a name of at most 31 bytes that is not in the directory can be created
-- while an inode and an entry from the third on are free, if mode and time fit their types: the call
-- succeeds, the search finds the first of those entries with the number of an inode, that inode in the
-- table is an empty regular file with the permissions and the time that were given, and the attributes
-- of the path are those of that inode.
pub mfs_create_lem :
    (fs : Fs) (path : List ℕ) (c : ℕ) (name : List ℕ) (mode now slot : ℕ)
    → Reliable fs
    → AreBytes (fs.disk 2)
    → HasFreeInode fs
    → bit_or 32768 (bit_and mode 511) < 4294967296
    → now < 18446744073709551616
    → path_name path ≡ some (c ∷ name)
    → length (c ∷ name) ≤ 31
    → search_name (c ∷ name) (fs.disk 5) 0 256 ≡ none
    → unused_entry (fs.disk 5) 2 254 ≡ some slot
    → Created path (c ∷ name) mode now slot (mfs_create fs path mode now)
mfs_create_lem fs path c name mode now slot works bytes has mode_fits now_fits named short absent
      room =
    let fs' = tick (tick fs) in
    let has' : HasFreeInode fs' = record {
      index = has.index;
      above = has.above;
      below = has.below;
      free = has.free;
    } in
    let (number, made) =
      create_in_lem fs' (c ∷ name) mode now (fs.disk 5) slot works bytes has' mode_fits now_fits in
    subst (Created path (c ∷ name) mode now slot)
      (sym (create_guards fs path c name mode now slot works named short absent room))
      (Made-Created path c name (fs.disk 5) mode now slot number
        (create_in fs' (c ∷ name) mode now (fs.disk 5) slot) named short absent
        (unused_entry-below (fs.disk 5) 2 254 slot room) made)
