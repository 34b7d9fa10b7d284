-- ===== src/Mfs/Content/Loop.antt =====
-- The loop of `mfs_write` of Project4/mfs.c puts the bytes behind those of the file.
use bilkent_os_projects.Base.{
  ℕ, ◌+◌, ◌-◌, ◌%◌, ◌≤◌, ◌<◌, ◌≡◌, ◌⊎◌, refl, sym, ap, ◌∙◌, subst, true, false, ◌==◌, ltb, leb,
  if◌then◌else◌, Bool-cases, inl, inr, arith, none, some,
}
use bilkent_os_projects.Mfs.Bitmap.{Bytes}
use bilkent_os_projects.Mfs.Device.{Fs, Errno, put, done, error, efbig, enospc, mfs_write_block}
use bilkent_os_projects.Mfs.Inode.{splice, from}
use bilkent_os_projects.Mfs.Create.Laws.{Reliable, tick}
use bilkent_os_projects.Mfs.Content.{block_size, block_idx, block_off, smaller}
use bilkent_os_projects.Mfs.Content.Reading.{file_byte}
use bilkent_os_projects.Mfs.Content.Append.{
  WriteState, Target, find_target, store_block, stopped, advance, write_round,
}
use bilkent_os_projects.Mfs.Content.Layout.{
  word, IsLaidOut, finds_old, finds_fresh, finds_none, find_target-Finds,
}
use bilkent_os_projects.Mfs.Content.Writing.{in_round, Changed, over, over-Changed}
use bilkent_os_projects.Mfs.Content.Fresh.{new, new_idx, new-Changed}

-- The file holds its old bytes, up to the offset, and behind them those of the buffer that were written;
-- blocks 0 and 2 to 5 are as they were.
pub record IsAppended (disk : ℕ → Bytes) (idx buf : Bytes) (offset size ib : ℕ) (w : WriteState)
    : Type 0 where
  pub layout : IsLaidOut w.fs ib w.idx_data
  pub content :
      (p : ℕ)
      → p < offset + w.bytes_written
      → file_byte w.fs.disk w.idx_data p
        ≡ (if ltb p offset then file_byte disk idx p else buf (p - offset))
  pub within : w.bytes_written ≤ size
  pub bounded : offset + w.bytes_written ≤ 67108864
  pub low : (b : ℕ) → b < 6 → (b == 1) ≡ false → w.fs.disk b ≡ disk b
  pub counted : w.block_count < 4294967296

-- The bytes of a round, by their place in the buffer.
in_round-place :
    (offset m t p : ℕ)
    → offset + m + t ≤ 67108864
    → p < 67108864
    → in_round (offset + m) t p ≡ true
    → (m + (block_off p - block_off (offset + m)) ≡ p - offset) × (ltb p offset ≡ false)
in_round-place offset m t p small below h = (ground arith, ground arith)

in_round-before :
    (offset m t p : ℕ)
    → (offset + m) % block_size + t ≤ block_size
    → p < offset + (m + t)
    → in_round (offset + m) t p ≡ false
    → p < offset + m
in_round-before offset m t p fits below h = ground arith

module _ (w : WriteState) (buf : Bytes) (offset size : ℕ) where
  abbrev place : ℕ
  place = offset + w.bytes_written

  abbrev to_write : ℕ
  to_write = smaller (block_size - block_off place) (size - w.bytes_written)

  abbrev own_word : ℕ
  own_word = word w.idx_data (block_idx place)

  write_round-big :
      leb 4096 (block_idx place) ≡ true → write_round w buf offset size ≡ stopped efbig w.fs w
  unfolding write_round
  write_round-big big = rw (write_round, big) refl

  write_round-error :
      (e : Errno) (fs₁ : Fs)
      → leb 4096 (block_idx place) ≡ false
      → find_target w.fs own_word ≡ (error e, fs₁)
      → write_round w buf offset size ≡ stopped e fs₁ w
  unfolding write_round
  write_round-error e fs₁ inside found = rw (write_round, inside, found, found) refl

  write_round-done :
      (t : Target) (fs₁ : Fs)
      → leb 4096 (block_idx place) ≡ false
      → find_target w.fs own_word ≡ (done t, fs₁)
      → Reliable fs₁
      → write_round w buf offset size
        ≡ advance w
            (put fs₁ t.data_blk
              (splice t.blk_buf (block_off place) to_write (from buf w.bytes_written)))
            t
            place
            to_write
  unfolding write_round store_block mfs_write_block
  write_round-done t fs₁ inside found works =
      rw
        (
          write_round,
          inside,
          found,
          found,
          store_block,
          mfs_write_block,
          works fs₁.clock t.data_blk,
        )
        refl

-- A round goes on with more bytes written, or stops with those that were written.
pub record Proceeds (disk : ℕ → Bytes) (idx buf : Bytes) (offset size ib : ℕ) (w next : WriteState)
    : Type 0 where
  pub appended : IsAppended disk idx buf offset size ib next
  pub moved :
      ((next.rc ≡ none) × (w.bytes_written < next.bytes_written))
      ⊎ ((e : Errno) × (next.rc ≡ some e))

module _ (disk : ℕ → Bytes) (idx buf : Bytes) (offset size ib : ℕ) (w : WriteState)
    (h : IsAppended disk idx buf offset size ib w) where
  stopped-Proceeds : (e : Errno) → Proceeds disk idx buf offset size ib w (stopped e (tick w.fs) w)
  stopped-Proceeds e = record {
    appended = record {
      layout = record {
        reliable = h.layout.reliable;
        bytes = h.layout.bytes;
        few = h.layout.few;
        index = h.layout.index;
        taken = h.layout.taken;
        apart = h.layout.apart;
        distinct = h.layout.distinct;
      };
      content = h.content;
      within = h.within;
      bounded = h.bounded;
      low = h.low;
      counted = h.counted;
    };
    moved = inr (e, refl);
  }

  Changed-Proceeds :
      (fs' : Fs) (idx' : Bytes) (count : ℕ)
      → count < 4294967296
      → w.bytes_written < size
      → offset + w.bytes_written < 67108864
      → let place = offset + w.bytes_written in
        let t = smaller (block_size - block_off place) (size - w.bytes_written) in
        Changed w.fs w.idx_data ib place t (from buf w.bytes_written) fs' idx'
        → Proceeds disk idx buf offset size ib w (record {
          rc = none;
          fs = fs';
          idx_data = idx';
          block_count = count;
          bytes_written = w.bytes_written + t;
        })
  Changed-Proceeds fs' idx' count counted more inside c =
      let m = w.bytes_written in
      let place = offset + m in
      let t = smaller (block_size - block_off place) (size - m) in
      let within : m + t ≤ size = ground arith in
      let block : place % block_size + t ≤ block_size = ground arith in
      let forward : 0 < t = ground arith in
      record {
        appended = record {
          layout = c.layout;
          content = λ p below. c.content p (omega arith) ∙ elim (Bool-cases (in_round place t p)) [
            | inl now ↦
                let (at, behind) = in_round-place offset m t p (omega arith) (omega arith) now in
                rw (now, behind) (ap buf at)
            | inr not_now ↦
                let before = in_round-before offset m t p block below not_now in
                rw not_now (h.content p before)
          ];
          within = within;
          bounded = omega arith;
          low = λ b l ne. c.low b l ne ∙ h.low b l ne;
          counted = counted;
        };
        moved = inl (refl, omega arith);
      }

  pub write_round-Proceeds :
      w.bytes_written < size
      → Proceeds disk idx buf offset size ib w (write_round w buf offset size)
  write_round-Proceeds more =
      let m = w.bytes_written in
      let place = offset + m in
      let n = word w.idx_data (block_idx place) in
      let l = h.layout in
      let bounded = h.bounded in
      let c = from buf m in
      let t = smaller (block_size - block_off place) (size - m) in
      elim (Bool-cases (leb 4096 (block_idx place))) [
        | inl big ↦
            subst (Proceeds disk idx buf offset size ib w)
              (sym (write_round-big w buf offset size big))
              (record {
                appended = record {
                  layout = l;
                  content = h.content;
                  within = h.within;
                  bounded = bounded;
                  low = h.low;
                  counted = h.counted;
                };
                moved = inr (efbig, refl);
              })
        | inr inside ↦
            let below : place < 67108864 = ground arith in
            let low : block_idx place < 4096 = ground arith in
            elim (find_target-Finds w.fs n l.reliable l.bytes l.few) [
              | finds_none hole found ↦
                  subst (Proceeds disk idx buf offset size ib w)
                    (sym (write_round-error w buf offset size enospc (tick w.fs) inside found))
                    (stopped-Proceeds enospc)
              | finds_old old found ↦
                  let target : Target = record {
                    data_blk = n;
                    blk_buf = w.fs.disk n;
                    newly_allocated = false;
                  } in
                  subst (Proceeds disk idx buf offset size ib w)
                    (sym (
                      write_round-done w buf offset size target (tick w.fs) inside found
                        l.reliable))
                    (Changed-Proceeds (over w.fs w.idx_data c ib place t) w.idx_data w.block_count
                      h.counted more below (over-Changed w.fs w.idx_data c ib place t l low old))
              | finds_fresh i fs₁ hole f found ↦
                  let target : Target = record {
                    data_blk = i;
                    blk_buf = λ k. 0;
                    newly_allocated = true;
                  } in
                  let works = λ (k n : ℕ). f.writes.device k n ∙ l.reliable k n in
                  subst (Proceeds disk idx buf offset size ib w)
                    (sym (write_round-done w buf offset size target fs₁ inside found works))
                    (Changed-Proceeds (new w.fs w.idx_data c ib place t fs₁ i f)
                      (new_idx w.fs w.idx_data c ib place t fs₁ i f)
                      ((w.block_count + 1) % 4294967296) (omega arith) more below
                      (new-Changed w.fs w.idx_data c ib place t fs₁ i f l low hole))
            ]
      ]
