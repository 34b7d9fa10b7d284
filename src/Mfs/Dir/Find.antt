-- ===== src/Mfs/Dir/Find.antt =====
-- The search for a name in the root directory of Project4/mfs.c.
use bilkent_os_projects.Base.{
  ℕ, zero, suc, ◌+◌, ◌*◌, ◌≤◌, ◌<◌, ◌≡◌, refl, ap, subst, sym, ◌∙◌, true, false, none, some, List,
  length, ◌==◌, Bool-cases, inl, inr, arith,
}
use bilkent_os_projects.Mfs.Bitmap.{Bytes}
use bilkent_os_projects.Mfs.Inode.{splice}
use bilkent_os_projects.Mfs.Inode.Words.{splice-inside}
use bilkent_os_projects.Mfs.Dir.{has_name, entry_at, search_name}
use bilkent_os_projects.Mfs.Dir.Names.{has_name-new, has_name-other}
use bilkent_os_projects.Mfs.Create.{new_entry}

-- A search that finds nothing has seen every entry of the range.
search_name-none :
    (name : List ℕ) (b : Bytes) (lo n : ℕ)
    → search_name name b lo n ≡ none
    → (j : ℕ) → lo ≤ j
    → j < lo + n
    → has_name name (entry_at b j) ≡ false
unfolding search_name
search_name-none name b lo zero h j low high = absurd (omega arith)
search_name-none name b lo (suc n) h j low high =
    elim (Bool-cases (has_name name (entry_at b lo))) [
      | inl hit ↦ cc (rw (search_name, hit) at h)
      | inr miss ↦ elim (Bool-cases (j == lo)) [
        | inl here ↦
            let e : lo ≡ j = ground arith in
            subst (λ m. has_name name (entry_at b m) ≡ false) e miss
        | inr later ↦
            search_name-none name b (suc lo) n (rw (search_name, miss) at h) j (ground arith)
              (omega arith)
      ]
    ]

-- The only entry with the name is found.
search_name-only :
    (name : List ℕ) (b : Bytes) (lo n slot : ℕ)
    → ((j : ℕ) → (j == slot) ≡ false → lo ≤ j → j < lo + n → has_name name (entry_at b j) ≡ false)
    → has_name name (entry_at b slot) ≡ true
    → lo ≤ slot
    → slot < lo + n
    → search_name name b lo n ≡ some slot
unfolding search_name
search_name-only name b lo zero slot others hit low high = absurd (omega arith)
search_name-only name b lo (suc n) slot others hit low high = elim (Bool-cases (lo == slot)) [
  | inl here ↦
      let e : slot ≡ lo = ground arith in
      rw (search_name, subst (λ m. has_name name (entry_at b m) ≡ true) e hit) (ap some (sym e))
  | inr later ↦
      rw (search_name, others lo later (omega arith) (omega arith))
        (search_name-only name b (suc lo) n slot
          (λ j differ l h. others j differ (omega arith) (omega arith)) hit (ground arith)
          (omega arith))
]

-- After an entry is made for a name that was not there, the search finds that entry.
pub search_name-new :
    (name : List ℕ) (b : Bytes) (slot number : ℕ)
    → length name ≤ 31
    → slot < 256
    → search_name name b 0 256 ≡ none
    → search_name name (splice b (64 * slot) 64 (new_entry number name)) 0 256 ≡ some slot
search_name-new name b slot number short high absent =
    search_name-only name (splice b (64 * slot) 64 (new_entry number name)) 0 256 slot
      (λ j differ l h.
        has_name-other b (new_entry number name) j slot name differ short
        ∙ search_name-none name b 0 256 absent j (omega arith) (omega arith))
      (has_name-new b slot number name short) (omega arith) (omega arith)

search_name-absent :
    (name : List ℕ) (b : Bytes) (lo n : ℕ)
    → ((j : ℕ) → lo ≤ j → j < lo + n → has_name name (entry_at b j) ≡ false)
    → search_name name b lo n ≡ none
unfolding search_name
search_name-absent name b lo zero miss = refl
search_name-absent name b lo (suc n) miss =
    rw (search_name, miss lo (omega arith) (omega arith))
      (search_name-absent name b (suc lo) n (λ j low high. miss j (omega arith) (omega arith)))

-- After the only entry with the name is cleared, the search finds nothing.
pub search_name-cleared :
    (name : List ℕ) (b : Bytes) (slot : ℕ)
    → length name ≤ 31
    → ((j : ℕ) → (j == slot) ≡ false → j < 256 → has_name name (entry_at b j) ≡ false)
    → search_name name (splice b (64 * slot) 64 (λ k. 0)) 0 256 ≡ none
search_name-cleared name b slot short others =
    search_name-absent name (splice b (64 * slot) 64 (λ k. 0)) 0 256 (λ j low high.
      elim (Bool-cases (j == slot)) [
        | inl here ↦
            let e : slot ≡ j = ground arith in
            subst (λ m. has_name name (entry_at (splice b (64 * slot) 64 (λ k. 0)) m) ≡ false) e
              (rw (splice-inside b (λ k. 0) (64 * slot) 64 36 (omega arith)) refl)
        | inr other ↦ has_name-other b (λ k. 0) j slot name other short ∙ others j other high
      ])
