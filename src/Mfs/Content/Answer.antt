-- ===== src/Mfs/Content/Answer.antt =====
-- How `mfs_write` of Project4/mfs.c comes to an index block.
use bilkent_os_projects.Base.{
  ℕ, ◌≤◌, ◌<◌, ◌≡◌, ◌⊎◌, refl, sym, ap, ◌∙◌, subst, true, false, ◌==◌, ltb, if◌then◌else◌, inl, inr,
  arith, none,
}
use bilkent_os_projects.Mfs.Bitmap.{Bytes, mfs_get_bit}
use bilkent_os_projects.Mfs.Bitmap.Laws.{AreBytes}
use bilkent_os_projects.Mfs.Device.{
  Fs, put, Result, done, error, enospc, mfs_read_block, mfs_write_block,
}
use bilkent_os_projects.Mfs.Alloc.{allocate_block}
use bilkent_os_projects.Mfs.Alloc.Laws.{allocate_block_lem}
use bilkent_os_projects.Mfs.Inode.{Inode}
use bilkent_os_projects.Mfs.Inode.Laws.{Fits}
use bilkent_os_projects.Mfs.Create.Laws.{Reliable, tick}
use bilkent_os_projects.Mfs.Content.Append.{WriteState, IndexBlock, load_index}
use bilkent_os_projects.Mfs.Content.Layout.{IsLaidOut, IsFresh, allocate_block-IsFull}
use bilkent_os_projects.Mfs.Content.Loop.{IsAppended}
use bilkent_os_projects.Mfs.Content.Outcome.{HasLayout}

abbrev pub start_state : Fs → Inode → IndexBlock → WriteState
start_state fs inode index = record {
  rc = none;
  fs = fs;
  idx_data = index.idx_data;
  block_count = inode.block_count;
  bytes_written = 0;
}

-- A file that can grow: one with an index block and blocks in order, or an empty one on a device whose
-- bitmap is of bytes.
abbrev pub CanGrow : Fs → Inode → Type 0
CanGrow fs inode =
    (((inode.index_block == 0) ≡ false) × HasLayout fs inode.index_block)
    ⊎ (((inode.index_block == 0) ≡ true)
        × (inode.size ≡ 0)
        × AreBytes (fs.disk 1)
        × (fs.block_count < 4294967296))

abbrev no_words : Bytes
no_words k = 0

-- A fresh index block: no word of it names a block.
fresh_index :
    (fs fs' : Fs) (i : ℕ)
    → Reliable fs
    → fs.block_count < 4294967296
    → IsFresh fs fs' i
    → IsLaidOut (put fs' i no_words) i no_words
fresh_index fs fs' i works few f =
    let above = f.above in
    let one_apart : (1 == i) ≡ false = ground arith in
    let here : (i == i) ≡ true = ground arith in
    let bit : mfs_get_bit (fs'.disk 1) i ≡ 1 =
      f.writes.bits i ∙ ap (λ x. if x then 1 else mfs_get_bit (fs.disk 1) i) here in
    record {
      reliable = λ k n. f.writes.device k n ∙ works k n;
      bytes = rw one_apart f.writes.bytes;
      few = subst (λ n. n < 4294967296) (sym f.writes.blocks) few;
      index = rw one_apart (above, ap (λ x. x == 0) bit);
      taken = λ k h block. cc block;
      apart = λ k h. ground arith;
      distinct = λ j k hj hk apart block. cc block;
    }

load_index-new :
    (fs fs' : Fs) (index_block i : ℕ)
    → (index_block == 0) ≡ true
    → allocate_block fs ≡ (done i, fs')
    → Reliable fs'
    → load_index fs index_block ≡ (
      done (record { index_block = i; idx_data = no_words; allocated_index = true }),
      put fs' i no_words,
    )
unfolding load_index mfs_write_block
load_index-new fs fs' index_block i none_yet taken works =
    rw (load_index, none_yet, taken, mfs_write_block, taken, works fs'.clock i) refl

-- The index block is there, or new, and the loop can start; or no block is free.
pub data Loads (fs : Fs) (inode : Inode) (buf : Bytes) (size : ℕ) (r : Result IndexBlock × Fs)
    : Type 0 where
  loaded :
      (index : IndexBlock) (fs' : Fs)
      → r ≡ (done index, fs')
      → index.index_block < 4294967296
      → IsAppended fs.disk
          (fs.disk inode.index_block)
          buf
          inode.size
          size
          index.index_block
          (start_state fs' inode index)
      → Loads fs inode buf size r
  refused : (fs' : Fs) → r ≡ (error enospc, fs') → Loads fs inode buf size r

pub load_index-Loads :
    (fs : Fs) (inode : Inode) (buf : Bytes) (size : ℕ)
    → Reliable fs
    → Fits inode
    → inode.size ≤ 67108864
    → CanGrow fs inode
    → Loads fs inode buf size (load_index fs inode.index_block)
unfolding load_index mfs_read_block mfs_write_block
load_index-Loads fs inode buf size works fits small (inl (indexed, l)) =
    let ib = inode.index_block in
    loaded (record { index_block = ib; idx_data = fs.disk ib; allocated_index = false }) (tick fs)
      (rw (load_index, indexed, mfs_read_block, works fs.clock ib) refl) fits.index_block
      (record {
        layout = record {
          reliable = l.reliable;
          bytes = l.bytes;
          few = l.few;
          index = l.index;
          taken = l.taken;
          apart = l.apart;
          distinct = l.distinct;
        };
        content = λ p below. let test : ltb p inode.size ≡ true = ground arith in rw test refl;
        within = omega arith;
        bounded = omega arith;
        low = λ b h ne. refl;
        counted = fits.block_count;
      })
load_index-Loads fs inode buf size works fits small (inr (none_yet, none_held, bytes, few)) =
    elim (allocate_block_lem fs (λ k. works k 1) bytes) [
      | inr (full, _) ↦
          refused (tick fs)
            (let e = allocate_block-IsFull fs works full in rw (load_index, none_yet, e, e) refl)
      | inl (i, f, took) ↦
          let fs' = (allocate_block fs).1 in
          let above = f.above in
          let below = f.below in
          let fresh : IsFresh fs fs' i = record {
            above = above;
            small = omega arith;
            free = f.free;
            writes = took.writes;
          } in
          let taken : allocate_block fs ≡ (done i, fs') = λ j. (took.answer j, fs') in
          let works' = λ (k n : ℕ). took.writes.device k n ∙ works k n in
          loaded (record { index_block = i; idx_data = no_words; allocated_index = true })
            (put fs' i no_words) (load_index-new fs fs' inode.index_block i none_yet taken works')
            fresh.small
            (record {
              layout = fresh_index fs fs' i works few fresh;
              content = λ p h. absurd (omega arith);
              within = omega arith;
              bounded = omega arith;
              low = λ b h ne.
                  let other : (b == i) ≡ false = ground arith in rw other (took.writes.others b ne);
              counted = fits.block_count;
            })
    ]
