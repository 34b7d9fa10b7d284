-- ===== src/Mfs/Content/Writing.antt =====
-- What a round of the loop of `mfs_write` of Project4/mfs.c does to the bytes of the file.
use bilkent_os_projects.Base.{
  ℕ, ◌+◌, ◌-◌, ◌<◌, ◌≡◌, refl, ap, subst, Bool, true, false, ◌&&◌, ◌==◌, ltb, leb, if◌then◌else◌,
  Bool-cases, inl, inr, arith,
}
use bilkent_os_projects.Mfs.Bitmap.{Bytes}
use bilkent_os_projects.Mfs.Device.{Fs, put}
use bilkent_os_projects.Mfs.Inode.{splice}
use bilkent_os_projects.Mfs.Create.Laws.{tick}
use bilkent_os_projects.Mfs.Content.{block_idx, block_off}
use bilkent_os_projects.Mfs.Content.Reading.{file_byte}
use bilkent_os_projects.Mfs.Content.Layout.{word, IsLaidOut}

-- The bytes that a round changes: from `place` on, in its block.
abbrev pub in_round : ℕ → ℕ → ℕ → Bool
in_round place t p =
    (block_idx p == block_idx place)
    && (leb (block_off place) (block_off p) && ltb (block_off p) (block_off place + t))

-- The file behind a round that put t bytes of c at a place: those bytes are there, the others as before.
pub record Changed (fs : Fs) (idx : Bytes) (ib place t : ℕ) (c : Bytes) (fs' : Fs) (idx' : Bytes)
    : Type 0 where
  pub content :
      (p : ℕ)
      → p < 67108864
      → file_byte fs'.disk idx' p ≡ (
          if in_round place t p then c (block_off p - block_off place) else file_byte fs.disk idx p)
  pub layout : IsLaidOut fs' ib idx'
  pub low : (b : ℕ) → b < 6 → (b == 1) ≡ false → fs'.disk b ≡ fs.disk b

module _ (fs : Fs) (idx c : Bytes) (ib place t : ℕ) where
  -- A round that writes over a block of the file.
  abbrev pub over : Fs
  over =
      let n = word idx (block_idx place) in
      put (tick fs) n (splice (fs.disk n) (block_off place) t c)

  over-content :
      IsLaidOut fs ib idx
      → block_idx place < 4096
      → (word idx (block_idx place) == 0) ≡ false
      → (p : ℕ) → p < 67108864
      → file_byte over.disk idx p ≡ (
          if in_round place t p then c (block_off p - block_off place) else file_byte fs.disk idx p)
  over-content l inside old p small =
      let n = word idx (block_idx place) in
      elim (Bool-cases (block_idx p == block_idx place)) [
        | inl same ↦
            let e : block_idx place ≡ block_idx p = ground arith in
            let old' : (word idx (block_idx p) == 0) ≡ false =
              subst (λ k. (word idx k == 0) ≡ false) e old in
            let here : (word idx (block_idx p) == n) ≡ true =
              subst (λ k. (word idx k == n) ≡ true) e (ground arith) in
            rw (same, old', here)
              (ap
                (λ k.
                  if leb (block_off place) (block_off p) && ltb (block_off p) (block_off place + t)
                  then c (block_off p - block_off place)
                  else fs.disk (word idx k) (block_off p))
                e)
        | inr other ↦ elim (Bool-cases (word idx (block_idx p) == 0)) [
          | inl hole ↦ rw (other, hole) refl
          | inr block ↦
              let apart =
                l.distinct (block_idx p) (block_idx place) (omega arith) inside other block in
              rw (other, block, apart) refl
        ]
      ]

  over-IsLaidOut :
      IsLaidOut fs ib idx
      → block_idx place < 4096
      → (word idx (block_idx place) == 0) ≡ false
      → IsLaidOut over ib idx
  over-IsLaidOut l inside old =
      let n = word idx (block_idx place) in
      let at = (l.taken (block_idx place) inside old).0 in
      let other : (1 == n) ≡ false = ground arith in
      record {
        reliable = l.reliable;
        bytes = rw other l.bytes;
        few = l.few;
        index = rw other l.index;
        taken = rw other l.taken;
        apart = l.apart;
        distinct = l.distinct;
      }

  pub over-Changed :
      IsLaidOut fs ib idx
      → block_idx place < 4096
      → (word idx (block_idx place) == 0) ≡ false
      → Changed fs idx ib place t c over idx
  over-Changed l inside old =
      let at = (l.taken (block_idx place) inside old).0 in
      record {
        content = over-content l inside old;
        layout = over-IsLaidOut l inside old;
        low = λ b h ne.
            let other : (b == word idx (block_idx place)) ≡ false = ground arith in rw other refl;
      }
