-- ===== src/Mfs/Inode.antt =====
-- `struct mfs_inode` of Project4/mfs.h (lines 43-53), and `read_inode` and `write_inode` of
-- Project4/mfs.c (lines 65-108). Children: `Words` (numbers as bytes), `Laws`.
pub mod Words
pub mod Laws
use bilkent_os_projects.Base.{
  ℕ, ◌+◌, ◌-◌, ◌*◌, ◌/◌, ◌%◌, Bool, true, false, ◌&&◌, ◌||◌, Option, none, some, ◌==◌, ltb, leb,
  if◌then◌else◌,
}
use bilkent_os_projects.Mfs.Bitmap.{Bytes}
use bilkent_os_projects.Mfs.Device.{
  Fs, Errno, Result, done, error, eio, enoent, einval, inode_count, mfs_read_block, mfs_write_block,
}

-- The bytes of a block from a place on, and a block with n bytes written over from a place on.
abbrev pub from : Bytes → ℕ → Bytes
from b o = λ k. b (o + k)

abbrev pub splice : Bytes → ℕ → ℕ → Bytes → Bytes
splice b o n c = λ j. if leb o j && ltb j (o + n) then c (j - o) else b j

-- A uint32_t and a uint64_t, least byte first.
abbrev pub get32 : Bytes → ℕ → ℕ
get32 b o = b o + 256 * b (o + 1) + 65536 * b (o + 2) + 16777216 * b (o + 3)

abbrev pub get64 : Bytes → ℕ → ℕ
get64 b o = get32 b o + 4294967296 * get32 b (o + 4)

abbrev pub put32 : ℕ → Bytes
put32 v k =
    if k == 0
    then v % 256
    else if k == 1
    then v / 256 % 256
    else if k == 2
    then v / 65536 % 256
    else v / 16777216 % 256

abbrev pub write32 : Bytes → ℕ → ℕ → Bytes
write32 b o v = splice b o 4 (put32 v)

abbrev pub write64 : Bytes → ℕ → ℕ → Bytes
write64 b o v = write32 (write32 b o (v % 4294967296)) (o + 4) (v / 4294967296)

-- `rest` is the padding (bytes 20 to 23) and `reserved`.
pub record Inode : Type 0 where
  pub inode_no : ℕ
  pub mode : ℕ
  pub size : ℕ
  pub block_count : ℕ
  pub index_block : ℕ
  pub ctime : ℕ
  pub mtime : ℕ
  pub atime : ℕ
  pub rest : Bytes

abbrev pub decode_inode : Bytes → Inode
decode_inode b = record {
  inode_no = get32 b 0;
  mode = get32 b 4;
  size = get32 b 8;
  block_count = get32 b 12;
  index_block = get32 b 16;
  ctime = get64 b 24;
  mtime = get64 b 32;
  atime = get64 b 40;
  rest = b;
}

abbrev pub encode_inode : Inode → Bytes
encode_inode i =
    let ids = write32 (write32 i.rest 0 i.inode_no) 4 i.mode in
    let sizes = write32 (write32 (write32 ids 8 i.size) 12 i.block_count) 16 i.index_block in
    write64 (write64 (write64 sizes 24 i.ctime) 32 i.mtime) 40 i.atime

-- Where an inode stands: its block and the place of its first byte.
abbrev pub inode_block : ℕ → ℕ
inode_block inode_no = 3 + (inode_no - 1) / 128

abbrev pub inode_place : ℕ → ℕ
inode_place inode_no = 128 * ((inode_no - 1) % 128)

abbrev pub no_such : ℕ → Bool
no_such inode_no = ltb inode_no 1 || ltb inode_count inode_no

unfoldable pub read_inode : Fs → ℕ → Result Inode × Fs
read_inode fs inode_no =
    let (block, fs₁) = mfs_read_block fs (inode_block inode_no) in
    if no_such inode_no then (error enoent, fs) else elim block [
      | none ↦ (error eio, fs₁)
      | some b ↦
          let inode = decode_inode (from b (inode_place inode_no)) in
          (if inode.inode_no == 0 then error enoent else done inode, fs₁)
    ]

-- `index` wraps for inode_no 0 in the source, but is not used then.
unfoldable pub write_inode : Fs → Inode → Result ℕ × Fs
write_inode fs inode =
    let (block, fs₁) = mfs_read_block fs (inode_block inode.inode_no) in
    if no_such inode.inode_no then (error einval, fs) else elim block [
      | none ↦ (error eio, fs₁)
      | some b ↦
          let (ok, fs₂) =
            mfs_write_block fs₁ (inode_block inode.inode_no)
              (splice b (inode_place inode.inode_no) 128 (encode_inode inode)) in
          (if ok then done 0 else error eio, fs₂)
    ]
