-- ===== src/Mfs/Content/Freed.antt =====
-- Which blocks `mfs_unlink` of Project4/mfs.c gives back (lines 388-402).
use bilkent_os_projects.Base.{
  ℕ, zero, suc, ◌+◌, ◌≤◌, ◌<◌, ◌≡◌, refl, sym, ap, ◌∙◌, subst, Bool, true, false, not, ◌||◌, ◌&&◌,
  ◌==◌, if◌then◌else◌, Bool-cases, inl, inr, arith, Option, none, some,
}
use bilkent_os_projects.Mfs.Bitmap.{Bytes, mfs_get_bit}
use bilkent_os_projects.Mfs.Bitmap.Laws.{AreBytes}
use bilkent_os_projects.Mfs.Device.{Fs, Result, done, error, mfs_read_block}
use bilkent_os_projects.Mfs.Alloc.{free_block}
use bilkent_os_projects.Mfs.Alloc.Laws.{free_block_lem}
use bilkent_os_projects.Mfs.Inode.{Inode, read_inode}
use bilkent_os_projects.Mfs.Create.{free_listed, free_data, at_most}
use bilkent_os_projects.Mfs.Create.Laws.{Reliable, tick}
use bilkent_os_projects.Mfs.Content.Layout.{word}

-- A data block that the disk has.
abbrev pub IsDataBlock : Fs → ℕ → Type 0
IsDataBlock fs n = (6 ≤ n) × (n < fs.block_count)

-- Whether a block is named by the n words from word i on.
abbrev pub is_named : Bytes → ℕ → ℕ → ℕ → Bool
is_named idx i zero j = false
is_named idx i (suc n) j = (not (word idx i == 0) && (j == word idx i)) || is_named idx (suc i) n j

-- The blocks with a mark are given back; nothing else changes on the disk.
pub record Frees (fs : Fs) (mark : ℕ → Bool) (fs' : Fs) : Type 0 where
  pub bits :
      (j : ℕ) → mfs_get_bit (fs'.disk 1) j ≡ (if mark j then 0 else mfs_get_bit (fs.disk 1) j)
  pub bytes : AreBytes (fs'.disk 1)
  pub others : (m : ℕ) → (m == 1) ≡ false → fs'.disk m ≡ fs.disk m
  pub blocks : fs'.block_count ≡ fs.block_count
  pub reliable : Reliable fs'

free_block-Frees :
    (fs : Fs) (n : ℕ)
    → Reliable fs
    → AreBytes (fs.disk 1)
    → IsDataBlock fs n
    → Frees fs (λ j. j == n) (free_block fs n).1
free_block-Frees fs n works bytes h =
    let took = free_block_lem fs n (λ k. works k 1) bytes h.0 h.1 in
    record {
      bits = took.writes.bits;
      bytes = took.writes.bytes;
      others = took.writes.others;
      blocks = took.writes.blocks;
      reliable = λ k m. took.writes.device k m ∙ works k m;
    }

either : (a b : Bool) (x : ℕ) → (if b then 0 else if a then 0 else x) ≡ (if a || b then 0 else x)
either true true x = refl
either true false x = refl
either false true x = refl
either false false x = refl

Frees-then :
    (fs fs₁ fs₂ : Fs) (mark mark' : ℕ → Bool)
    → Frees fs mark fs₁
    → Frees fs₁ mark' fs₂
    → Frees fs (λ j. mark j || mark' j) fs₂
Frees-then fs fs₁ fs₂ mark mark' f g = record {
  bits = λ j.
      g.bits j
      ∙ ap (λ x. if mark' j then 0 else x) (f.bits j)
      ∙ either (mark j) (mark' j) (mfs_get_bit (fs.disk 1) j);
  bytes = g.bytes;
  others = λ m h. g.others m h ∙ f.others m h;
  blocks = g.blocks ∙ f.blocks;
  reliable = g.reliable;
}

Frees-mark :
    (fs fs' : Fs) (mark mark' : ℕ → Bool)
    → ((j : ℕ) → mark' j ≡ mark j)
    → Frees fs mark fs'
    → Frees fs mark' fs'
Frees-mark fs fs' mark mark' same f = record {
  bits = λ j. f.bits j ∙ ap (λ b. if b then 0 else mfs_get_bit (fs.disk 1) j) (sym (same j));
  bytes = f.bytes;
  others = f.others;
  blocks = f.blocks;
  reliable = f.reliable;
}

free_listed-Frees :
    (fs : Fs) (idx : Bytes) (i n : ℕ)
    → Reliable fs
    → AreBytes (fs.disk 1)
    → ((k : ℕ) → i ≤ k → k < i + n → (word idx k == 0) ≡ false → IsDataBlock fs (word idx k))
    → Frees fs (is_named idx i n) (free_listed fs idx i n)
unfolding free_listed
free_listed-Frees fs idx i zero works bytes good = record {
  bits = λ j. refl;
  bytes = bytes;
  others = λ m h. refl;
  blocks = refl;
  reliable = works;
}
free_listed-Frees fs idx i (suc n) works bytes good = elim (Bool-cases (word idx i == 0)) [
  | inl hole ↦ rw hole (
      Frees-mark fs (free_listed fs idx (suc i) n) (is_named idx (suc i) n) (is_named idx i (suc n))
        (λ j. rw hole refl)
        (free_listed-Frees fs idx (suc i) n works bytes
          (λ k low high. good k (omega arith) (omega arith))))
  | inr block ↦
      let w = word idx i in
      let f = free_block-Frees fs w works bytes (good i (omega arith) (omega arith) block) in
      let fs₁ = (free_block fs w).1 in
      rw block (
        Frees-mark fs (free_listed fs₁ idx (suc i) n) (λ j. j == w || is_named idx (suc i) n j)
          (is_named idx i (suc n)) (λ j. rw block refl)
          (Frees-then fs fs₁ (free_listed fs₁ idx (suc i) n) (λ j. j == w) (is_named idx (suc i) n)
            f
            (free_listed-Frees fs₁ idx (suc i) n f.reliable f.bytes (λ k low high b.
              let h = good k (omega arith) (omega arith) b in
              (h.0, subst (λ c. word idx k < c) (sym f.blocks) h.1)))))
]

-- The blocks of a file: those of its index block, and the index block, if it has one.
abbrev pub file_blocks : Inode → Bytes → ℕ → Bool
file_blocks inode idx j =
    not (inode.index_block == 0)
    && (is_named idx 0 (at_most inode.block_count 4096) j || j == inode.index_block)

-- The blocks of a file are data blocks of the disk.
pub record HasDataBlocks (fs : Fs) (inode : Inode) : Type 0 where
  pub index : (inode.index_block == 0) ≡ false → IsDataBlock fs inode.index_block
  pub listed :
      (inode.index_block == 0) ≡ false
      → (k : ℕ) → k < 4096
      → (word (fs.disk inode.index_block) k == 0) ≡ false
      → IsDataBlock fs (word (fs.disk inode.index_block) k)

-- The rest of `free_data` once the index block is read.
abbrev freed_index : Inode → Option Bytes × Fs → Fs
freed_index file (idx, fs) =
    let fs' : Fs = elim idx [
      | none ↦ fs
      | some b ↦ free_listed fs b 0 (at_most file.block_count 4096)
    ] in
    (free_block fs' file.index_block).1

-- The rest of `free_data` once the inode is read.
abbrev freed_found : Result Inode × Fs → Fs
freed_found (found, fs) = elim found [
  | error _ ↦ fs
  | done file ↦
      if file.index_block == 0 then fs else freed_index file (mfs_read_block fs file.index_block)
]

read_block : (fs : Fs) (n : ℕ) → Reliable fs → mfs_read_block fs n ≡ (some (fs.disk n), tick fs)
unfolding mfs_read_block
read_block fs n works = rw (works fs.clock n) refl

indexed_data-Frees :
    (fs : Fs) (number : ℕ) (inode : Inode)
    → Reliable fs
    → AreBytes (fs.disk 1)
    → read_inode fs number ≡ (done inode, tick fs)
    → (inode.index_block == 0) ≡ false
    → HasDataBlocks fs inode
    → Frees fs (file_blocks inode (fs.disk inode.index_block)) (free_data fs number)
unfolding free_data
indexed_data-Frees fs number inode works bytes read indexed owned =
    let index = owned.index indexed in
    let idx = fs.disk inode.index_block in
    let n = at_most inode.block_count 4096 in
    let few : n ≤ 4096 = ground arith in
    let later = tick (tick fs) in
    let f =
      free_listed-Frees later idx 0 n works bytes
        (λ k low high. owned.listed indexed k (omega arith)) in
    let fs₁ = free_listed later idx 0 n in
    let g =
      free_block-Frees fs₁ inode.index_block f.reliable f.bytes
        (index.0, subst (λ c. inode.index_block < c) (sym f.blocks) index.1) in
    let all_freed =
      Frees-then later fs₁ (free_block fs₁ inode.index_block).1 (is_named idx 0 n)
        (λ j. j == inode.index_block) f g in
    let indexed_at : freed_found (done inode, tick fs)
        ≡ freed_index inode (mfs_read_block (tick fs) inode.index_block) =
      rw indexed refl in
    let opened : free_data fs number ≡ freed_index inode (some idx, later) =
      ap freed_found read
      ∙ indexed_at
      ∙ ap (freed_index inode) (read_block (tick fs) inode.index_block (λ k m. works k m)) in
    subst (λ fs'. Frees fs (file_blocks inode idx) fs') (sym opened)
      (record {
        bits = λ j. rw indexed (all_freed.bits j);
        bytes = all_freed.bytes;
        others = all_freed.others;
        blocks = all_freed.blocks;
        reliable = all_freed.reliable;
      })

pub free_data-Frees :
    (fs : Fs) (number : ℕ) (inode : Inode)
    → Reliable fs
    → AreBytes (fs.disk 1)
    → read_inode fs number ≡ (done inode, tick fs)
    → HasDataBlocks fs inode
    → Frees fs (file_blocks inode (fs.disk inode.index_block)) (free_data fs number)
unfolding free_data
free_data-Frees fs number inode works bytes read owned =
    elim (Bool-cases (inode.index_block == 0)) [
      | inr indexed ↦ indexed_data-Frees fs number inode works bytes read indexed owned
      | inl empty ↦
          let nothing : freed_found (done inode, tick fs) ≡ tick fs = rw empty refl in
          let opened : free_data fs number ≡ tick fs = ap freed_found read ∙ nothing in
          subst (λ fs'. Frees fs (file_blocks inode (fs.disk inode.index_block)) fs') (sym opened)
            (record {
              bits = λ j. rw empty refl;
              bytes = bytes;
              others = λ m h. refl;
              blocks = refl;
              reliable = works;
            })
    ]
