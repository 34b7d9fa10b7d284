-- ===== src/Mfs/Content/Reading.antt =====
-- What `mfs_read` of Project4/mfs.c reads.
use bilkent_os_projects.Base.{
  ℕ, zero, suc, ◌+◌, ◌-◌, ◌*◌, ◌%◌, ◌≤◌, ◌<◌, ◌≡◌, refl, sym, ap, ap₂, ◌∙◌, subst, true, false,
  ◌&&◌, ◌==◌, ltb, leb, if◌then◌else◌, Bool-cases, inl, inr, arith,
}
use bilkent_os_projects.Mfs.Bitmap.{Bytes}
use bilkent_os_projects.Mfs.Device.{Fs, done, mfs_read_block}
use bilkent_os_projects.Mfs.Inode.{Inode, splice, from, get32}
use bilkent_os_projects.Mfs.Create.Laws.{Reliable, tick}
use bilkent_os_projects.Mfs.Content.{
  block_size, block_idx, block_off, smaller, ReadState, read_loop, read_file,
}

-- The byte at a place of a file, by the words of its index block: 0 where there is no block.
abbrev pub file_byte : (ℕ → Bytes) → Bytes → ℕ → ℕ
file_byte disk idx_data place =
    let block_no = get32 idx_data (4 * block_idx place) in
    if block_no == 0 then 0 else disk block_no (block_off place)

-- The bytes from n to `total` of a buffer were read; the disk is as it was.
pub record HasRead (fs : Fs) (idx_data buf : Bytes) (offset n total : ℕ) (r : ReadState)
    : Type 0 where
  pub answer : r.answer ≡ done total
  pub bytes :
      (j : ℕ)
      → r.buf j
        ≡ (if leb n j && ltb j total then file_byte fs.disk idx_data (offset + j) else buf j)
  pub disk : r.fs.disk ≡ fs.disk

same_block :
    (place d : ℕ)
    → place % block_size + d < block_size
    → place + d < 67108864
    → (block_idx (place + d) ≡ block_idx place) × (block_off (place + d) ≡ block_off place + d)
same_block place d h small = (omega arith, omega arith)

-- A round that puts the right bytes into the buffer, before the rest of the loop.
HasRead-round :
    (fs fs₁ : Fs) (idx_data buf c : Bytes) (offset n t total : ℕ) (r : ReadState)
    → fs₁.disk ≡ fs.disk
    → n + t ≤ total
    → ((d : ℕ) → d < t → c d ≡ file_byte fs.disk idx_data (offset + (n + d)))
    → HasRead fs₁ idx_data (splice buf n t c) offset (n + t) total r
    → HasRead fs idx_data buf offset n total r
HasRead-round fs fs₁ idx_data buf c offset n t total r kept fits right h = record {
  answer = h.answer;
  bytes = λ j.
      h.bytes j
      ∙ ap
          (λ (k : ℕ → Bytes).
            if leb (n + t) j && ltb j total
            then file_byte k idx_data (offset + j)
            else splice buf n t c j)
          kept
      ∙ elim (Bool-cases (leb n j && ltb j (n + t))) [
        | inl now ↦
            let later : (leb (n + t) j && ltb j total) ≡ false = ground arith in
            let within : (leb n j && ltb j total) ≡ true = ground arith in
            let place : n + (j - n) ≡ j = ground arith in
            rw (later, now, within)
              (right (j - n) (ground arith)
                ∙ ap (λ m. file_byte fs.disk idx_data (offset + m)) place)
        | inr not_now ↦
            let same : (leb (n + t) j && ltb j total) ≡ (leb n j && ltb j total) = ground arith in
            rw (not_now, same) refl
      ];
  disk = h.disk ∙ kept;
}

-- The two rounds that go on.
module _ (fuel : ℕ) (fs : Fs) (idx_data buf : Bytes) (offset total n : ℕ) where
  abbrev step : ℕ
  step = smaller (block_size - block_off (offset + n)) (total - n)

  abbrev number : ℕ
  number = get32 idx_data (4 * block_idx (offset + n))

  abbrev rest_of : Fs → Bytes → ReadState
  rest_of later c = read_loop fuel later idx_data (splice buf n step c) offset total (n + step)

  read_loop-over :
      leb total n ≡ true
      → read_loop (suc fuel) fs idx_data buf offset total n
        ≡ record { answer = done n; buf = buf; fs = fs }
  unfolding read_loop
  read_loop-over e = rw (read_loop, e) refl

  read_loop-hole :
      leb total n ≡ false
      → leb 4096 (block_idx (offset + n)) ≡ false
      → (number == 0) ≡ true
      → read_loop (suc fuel) fs idx_data buf offset total n ≡ rest_of fs (λ k. 0)
  unfolding read_loop
  read_loop-hole more small hole = rw (read_loop, more, small, hole) refl

  read_loop-block :
      leb total n ≡ false
      → leb 4096 (block_idx (offset + n)) ≡ false
      → (number == 0) ≡ false
      → Reliable fs
      → read_loop (suc fuel) fs idx_data buf offset total n
        ≡ rest_of (tick fs) (from (fs.disk number) (block_off (offset + n)))
  unfolding read_loop mfs_read_block
  read_loop-block more small block works =
      rw (read_loop, more, small, block, mfs_read_block, works fs.clock number) refl

-- The bytes of one round stand in one block.
file_byte-round :
    (disk : ℕ → Bytes) (idx_data : Bytes) (offset n d : ℕ)
    → (offset + n) % block_size + d < block_size
    → offset + n + d < 67108864
    → file_byte disk idx_data (offset + (n + d)) ≡ (
        if get32 idx_data (4 * block_idx (offset + n)) == 0
        then 0
        else disk (get32 idx_data (4 * block_idx (offset + n))) (block_off (offset + n) + d))
file_byte-round disk idx_data offset n d h small =
    let (same_idx, same_off) = same_block (offset + n) d h small in
    let place : offset + (n + d) ≡ offset + n + d = omega arith in
    ap (file_byte disk idx_data) place
    ∙ ap₂ (λ i o. if get32 idx_data (4 * i) == 0 then 0 else disk (get32 idx_data (4 * i)) o)
        same_idx same_off

read_loop_lem :
    (fuel : ℕ) (fs : Fs) (idx_data buf : Bytes) (offset total n : ℕ)
    → Reliable fs
    → n ≤ total
    → total ≤ n + fuel
    → offset + total ≤ 67108864
    → HasRead fs idx_data buf offset n total (read_loop fuel fs idx_data buf offset total n)
unfolding read_loop mfs_read_block
read_loop_lem zero fs idx_data buf offset total n works low high small = record {
  answer = ap done (omega arith);
  bytes = λ j. let test : (leb n j && ltb j total) ≡ false = ground arith in rw test refl;
  disk = refl;
}
read_loop_lem (suc fuel) fs idx_data buf offset total n works low high small =
    let place = offset + n in
    let t = smaller (block_size - block_off place) (total - n) in
    let number = get32 idx_data (4 * block_idx place) in
    elim (Bool-cases (leb total n)) [
      | inl over ↦
          subst (HasRead fs idx_data buf offset n total)
            (sym (read_loop-over fuel fs idx_data buf offset total n over))
            (record {
              answer = ap done (let high' : total ≤ n = ground arith in omega arith);
              bytes =
                  λ j. let test : (leb n j && ltb j total) ≡ false = ground arith in rw test refl;
              disk = refl;
            })
      | inr more ↦
          let inside : leb 4096 (block_idx place) ≡ false = ground arith in
          let forward : 0 < t = ground arith in
          let fits : n + t ≤ total = ground arith in
          let within : place % block_size + t ≤ block_size = ground arith in
          elim (Bool-cases (number == 0)) [
            | inl hole ↦
                subst (HasRead fs idx_data buf offset n total)
                  (sym (read_loop-hole fuel fs idx_data buf offset total n more inside hole))
                  (HasRead-round fs fs idx_data buf (λ k. 0) offset n t total
                    (read_loop fuel fs idx_data (splice buf n t (λ k. 0)) offset total (n + t)) refl
                    fits
                    (λ d h. sym (
                      file_byte-round fs.disk idx_data offset n d (omega arith) (omega arith)
                      ∙ ap (λ x. if x then 0 else fs.disk number (block_off place + d)) hole))
                    (read_loop_lem fuel fs idx_data (splice buf n t (λ k. 0)) offset total (n + t)
                      works fits (omega arith) small))
            | inr block ↦
                let b = from (fs.disk number) (block_off place) in
                subst (HasRead fs idx_data buf offset n total)
                  (sym
                    (read_loop-block fuel fs idx_data buf offset total n more inside block works))
                  (HasRead-round fs (tick fs) idx_data buf b offset n t total
                    (read_loop fuel (tick fs) idx_data (splice buf n t b) offset total (n + t)) refl
                    fits
                    (λ d h. sym (
                      file_byte-round fs.disk idx_data offset n d (omega arith) (omega arith)
                      ∙ ap (λ x. if x then 0 else fs.disk number (block_off place + d)) block))
                    (read_loop_lem fuel (tick fs) idx_data (splice buf n t b) offset total (n + t)
                      works fits (omega arith) small))
          ]
    ]

-- How many bytes of a file there are to read.
abbrev pub readable : ℕ → Inode → ℕ → ℕ
readable size inode offset = smaller size (inode.size - offset)

-- The part behind the lookup of the path.
module _ (fs : Fs) (inode : Inode) (buf : Bytes) (size offset : ℕ) where
  read_file-behind :
      leb inode.size offset ≡ true
      → read_file fs inode buf size offset ≡ record { answer = done 0; buf = buf; fs = fs }
  unfolding read_file
  read_file-behind e = rw (read_file, e) refl

  read_file-inside :
      leb inode.size offset ≡ false
      → (inode.index_block == 0) ≡ false
      → Reliable fs
      → read_file fs inode buf size offset
        ≡ read_loop
            (readable size inode offset)
            (tick fs)
            (fs.disk inode.index_block)
            buf
            offset
            (readable size inode offset)
            0
  unfolding read_file mfs_read_block
  read_file-inside e indexed works =
      rw (read_file, e, indexed, mfs_read_block, works fs.clock inode.index_block) refl

  pub read_file_lem :
      Reliable fs
      → (inode.index_block == 0) ≡ false
      → inode.size ≤ 67108864
      → HasRead fs
          (fs.disk inode.index_block)
          buf
          offset
          0
          (readable size inode offset)
          (read_file fs inode buf size offset)
  read_file_lem works indexed small =
      let total = readable size inode offset in
      let idx_data = fs.disk inode.index_block in
      elim (Bool-cases (leb inode.size offset)) [
        | inl behind ↦
            let none_left : total ≡ 0 = ground arith in
            subst (HasRead fs idx_data buf offset 0 total) (sym (read_file-behind behind)) (record {
              answer = ap done (sym none_left);
              bytes =
                  λ j. let test : (leb 0 j && ltb j total) ≡ false = ground arith in rw test refl;
              disk = refl;
            })
        | inr inside ↦
            let r =
              read_loop_lem total (tick fs) idx_data buf offset total 0 works (omega arith)
                (omega arith) (ground arith) in
            subst (HasRead fs idx_data buf offset 0 total)
              (sym (read_file-inside inside indexed works))
              (record { answer = r.answer; bytes = r.bytes; disk = r.disk })
      ]
