-- ===== src/Mfs/Content/Fresh.antt =====
-- A round of the loop of `mfs_write` of Project4/mfs.c that gives the file a fresh block.
use bilkent_os_projects.Base.{
  ℕ, ◌-◌, ◌*◌, ◌<◌, ◌≡◌, ◌⊎◌, refl, sym, ap, ◌∙◌, subst, true, false, ◌==◌, if◌then◌else◌,
  Bool-cases, inl, inr, arith,
}
use bilkent_os_projects.Mfs.Bitmap.{Bytes, mfs_get_bit}
use bilkent_os_projects.Mfs.Device.{Fs, put}
use bilkent_os_projects.Mfs.Inode.{splice, write32}
use bilkent_os_projects.Mfs.Content.{block_idx, block_off}
use bilkent_os_projects.Mfs.Content.Reading.{file_byte}
use bilkent_os_projects.Mfs.Content.Layout.{
  word, word-write32_self, word-write32_ne, IsTaken, IsLaidOut, IsFresh,
}
use bilkent_os_projects.Mfs.Content.Writing.{in_round, Changed}

free_apart :
    (b : Bytes) (n i : ℕ)
    → (mfs_get_bit b n == 0) ≡ false
    → (mfs_get_bit b i == 0) ≡ true
    → (n == i) ≡ false
free_apart b n i used free = elim (Bool-cases (n == i)) [
  | inl same ↦
      let e : n ≡ i = ground arith in cc (subst (λ m. (mfs_get_bit b m == 0) ≡ false) e used, free)
  | inr apart ↦ apart
]

both_at : (j k b : ℕ) → (j == b) ≡ true → (k == b) ≡ true → (j == k) ≡ false → ⊥
both_at j k b h h' apart = ground arith

apart_sym : (m n : ℕ) → (m == n) ≡ false → (n == m) ≡ false
apart_sym m n h = ground arith

module _ (fs : Fs) (idx c : Bytes) (ib place t : ℕ) (fs₁ : Fs) (i : ℕ) (f : IsFresh fs fs₁ i) where
  -- A round that writes a fresh block.
  abbrev pub new : Fs
  new = put fs₁ i (splice (λ k. 0) (block_off place) t c)

  abbrev pub new_idx : Bytes
  new_idx = write32 idx (4 * block_idx place) i

  -- A block that is taken is not the fresh one, and stays.
  taken-new : (n : ℕ) → IsTaken fs n → ((n == i) ≡ false) × (fs₁.disk n ≡ fs.disk n) × IsTaken new n
  taken-new n h =
      let free = f.free in
      let above = f.above in
      let apart = free_apart (fs.disk 1) n i h.1 f.free in
      let one_apart : (1 == i) ≡ false = ground arith in
      let kept : mfs_get_bit (fs₁.disk 1) n ≡ mfs_get_bit (fs.disk 1) n =
        f.writes.bits n ∙ ap (λ x. if x then 1 else mfs_get_bit (fs.disk 1) n) apart in
      (
        apart,
        f.writes.others n (let low = h.0 in ground arith),
        rw one_apart (h.0, ap (λ x. x == 0) kept ∙ h.1),
      )

  new-content :
      IsLaidOut fs ib idx
      → block_idx place < 4096
      → (word idx (block_idx place) == 0) ≡ true
      → (p : ℕ) → p < 67108864
      → file_byte new.disk new_idx p ≡ (
          if in_round place t p then c (block_off p - block_off place) else file_byte fs.disk idx p)
  new-content l inside hole p small =
      let above = f.above in
      let own = word-write32_self idx (block_idx place) i f.small in
      elim (Bool-cases (block_idx p == block_idx place)) [
        | inl same ↦
            let e : block_idx place ≡ block_idx p = ground arith in
            let own' : word new_idx (block_idx p) ≡ i = ap (word new_idx) (sym e) ∙ own in
            let some_block : (i == 0) ≡ false = ground arith in
            let here : (i == i) ≡ true = ground arith in
            let hole' : (word idx (block_idx p) == 0) ≡ true =
              subst (λ k. (word idx k == 0) ≡ true) e hole in
            ap (λ w. if w == 0 then 0 else new.disk w (block_off p)) own'
            ∙ rw (some_block, here, same, hole') refl
        | inr other ↦
            let kept = word-write32_ne idx (block_idx place) (block_idx p) i other in
            ap (λ w. if w == 0 then 0 else new.disk w (block_off p)) kept
            ∙ elim (Bool-cases (word idx (block_idx p) == 0)) [
              | inl empty ↦ rw (other, empty) refl
              | inr block ↦
                  let (apart, stays, now) =
                    taken-new (word idx (block_idx p))
                      (l.taken (block_idx p) (omega arith) block) in
                  rw (other, block, apart) (ap (λ b. b (block_off p)) stays)
            ]
      ]

  word-new :
      (k : ℕ)
      → (((k == block_idx place) ≡ true) × (word new_idx k ≡ i))
        ⊎ (((k == block_idx place) ≡ false) × (word new_idx k ≡ word idx k))
  word-new k = elim (Bool-cases (k == block_idx place)) [
    | inl same ↦
        let e : k ≡ block_idx place = ground arith in
        inl (same, ap (word new_idx) e ∙ word-write32_self idx (block_idx place) i f.small)
    | inr other ↦ inr (other, word-write32_ne idx (block_idx place) k i other)
  ]

  new-taken : IsTaken new i
  new-taken =
      let above = f.above in
      let one_apart : (1 == i) ≡ false = ground arith in
      let here : (i == i) ≡ true = ground arith in
      let bit : mfs_get_bit (fs₁.disk 1) i ≡ 1 =
        f.writes.bits i ∙ ap (λ x. if x then 1 else mfs_get_bit (fs.disk 1) i) here in
      rw one_apart (above, ap (λ x. x == 0) bit)

  word-apart : IsLaidOut fs ib idx → (k : ℕ) → k < 4096 → (word idx k == i) ≡ false
  word-apart l k h =
      let above = f.above in
      elim (Bool-cases (word idx k == 0)) [
        | inl hole ↦ ground arith
        | inr block ↦ (taken-new (word idx k) (l.taken k h block)).0
      ]

  new-IsLaidOut : IsLaidOut fs ib idx → IsLaidOut new ib new_idx
  new-IsLaidOut l =
      let above = f.above in
      let one_apart : (1 == i) ≡ false = ground arith in
      let fresh_ib = (taken-new ib l.index).0 in
      record {
        reliable = λ k n. f.writes.device k n ∙ l.reliable k n;
        bytes = rw one_apart f.writes.bytes;
        few = subst (λ n. n < 4294967296) (sym f.writes.blocks) l.few;
        index = (taken-new ib l.index).2;
        taken = λ k h some_block. elim (word-new k) [
          | inl (_, e) ↦ subst (IsTaken new) (sym e) new-taken
          | inr (_, e) ↦
              subst (IsTaken new) (sym e)
                (taken-new (word idx k) (l.taken k h (ap (λ w. w == 0) (sym e) ∙ some_block))).2
        ];
        apart = λ k h. elim (word-new k) [
          | inl (_, e) ↦ subst (λ w. (w == ib) ≡ false) (sym e) (apart_sym ib i fresh_ib)
          | inr (_, e) ↦ subst (λ w. (w == ib) ≡ false) (sym e) (l.apart k h)
        ];
        distinct = λ j k hj hk apart some_block. elim (word-new j) [
          | inl (at, e) ↦ elim (word-new k) [
            | inl (at', e') ↦ absurd (both_at j k (block_idx place) at at' apart)
            | inr (_, e') ↦
                let other = word-apart l k hk in
                subst (λ w. (w == word new_idx k) ≡ false) (sym e)
                  (subst (λ w. (i == w) ≡ false) (sym e') (apart_sym (word idx k) i other))
          ]
          | inr (_, e) ↦ elim (word-new k) [
            | inl (at', e') ↦
                subst (λ w. (w == word new_idx k) ≡ false) (sym e)
                  (subst (λ w. (word idx j == w) ≡ false) (sym e') (word-apart l j hj))
            | inr (_, e') ↦
                subst (λ w. (w == word new_idx k) ≡ false) (sym e)
                  (subst (λ w. (word idx j == w) ≡ false) (sym e')
                    (l.distinct j k hj hk apart (ap (λ w. w == 0) (sym e) ∙ some_block)))
          ]
        ];
      }

  pub new-Changed :
      IsLaidOut fs ib idx
      → block_idx place < 4096
      → (word idx (block_idx place) == 0) ≡ true
      → Changed fs idx ib place t c new new_idx
  new-Changed l inside hole =
      let above = f.above in
      record {
        content = new-content l inside hole;
        layout = new-IsLaidOut l;
        low = λ b h ne.
            let other : (b == i) ≡ false = ground arith in rw other (f.writes.others b ne);
      }
