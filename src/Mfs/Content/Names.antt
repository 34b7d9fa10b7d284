-- ===== src/Mfs/Content/Names.antt =====
-- What `mfs_readdir` of Project4/mfs.c lists.
use bilkent_os_projects.Base.{
  ℕ, zero, suc, ◌≡◌, refl, sym, ap, ◌∙◌, Bool, true, false, ◌||◌, Option, none, some, List, [], ◌∷◌,
  if◌then◌else◌, Bool-cases, Option-cases, inl, inr,
}
use bilkent_os_projects.Mfs.Bitmap.{Bytes}
use bilkent_os_projects.Mfs.Device.{Fs, Result, done, error}
use bilkent_os_projects.Mfs.Dir.{
  is_string, is_used, entry_at, entry_name, search_name, find_dir_entry, entry_inode, Entry,
}
use bilkent_os_projects.Mfs.Create.Laws.{Reliable, read_dir, find_at, find_nothing}
use bilkent_os_projects.Mfs.Content.{used_names, mfs_readdir}

-- Whether a name is among those that were handed over.
abbrev pub is_listed : List ℕ → List Bytes → Bool
is_listed name [] = false
is_listed name (b ∷ bs) = is_string b name || is_listed name bs

abbrev pub is_done : Result Entry → Bool
is_done (done a) = true
is_done (error e) = false

abbrev pub is_found : Option ℕ → Bool
is_found none = false
is_found (some i) = true

one_more :
    (hit : Bool) (i : ℕ) (rest : Option ℕ)
    → (hit || is_found rest) ≡ is_found (if hit then some i else rest)
one_more true i rest = refl
one_more false i rest = refl

used_names_lem :
    (name : List ℕ) (b : Bytes) (i n : ℕ)
    → is_listed name (used_names b i n) ≡ is_found (search_name name b i n)
unfolding used_names search_name
used_names_lem name b i zero = refl
used_names_lem name b i (suc n) =
    let rest = used_names_lem name b (suc i) n in
    elim (Bool-cases (is_used (entry_at b i))) [
      | inr unused ↦ rw unused rest
      | inl used ↦ rw used (
          ap (λ x. is_string (entry_name (entry_at b i)) name || x) rest
          ∙ one_more (is_string (entry_name (entry_at b i)) name) i (search_name name b (suc i) n))
    ]

-- The search for a name answers an entry if there is one, and an error otherwise.
find_dir_entry-is_done :
    (fs : Fs) (name : List ℕ)
    → Reliable fs
    → is_done (find_dir_entry fs name).0 ≡ is_found (search_name name (fs.disk 5) 0 256)
find_dir_entry-is_done fs name works = elim (Option-cases (search_name name (fs.disk 5) 0 256)) [
  | inl absent ↦ rw (find_nothing fs name works absent, absent) refl
  | inr (slot, found) ↦
      rw (find_at fs name slot (entry_inode (entry_at (fs.disk 5) slot)) works found refl, found)
        refl
]

-- On a device that never fails, `mfs_readdir` of "/" succeeds, and the names that it hands over are
-- exactly those under which `find_dir_entry` finds an entry.
pub mfs_readdir_lem :
    (fs : Fs)
    → Reliable fs
    → (names : List Bytes) × ((mfs_readdir fs (47 ∷ [])).0 ≡ done names)
      × ((name : List ℕ) → is_listed name names ≡ is_done (find_dir_entry fs name).0)
unfolding mfs_readdir
mfs_readdir_lem fs works = (
  used_names (fs.disk 5) 0 256,
  rw (mfs_readdir, read_dir fs works) refl,
  λ name. used_names_lem name (fs.disk 5) 0 256 ∙ sym (find_dir_entry-is_done fs name works),
)
