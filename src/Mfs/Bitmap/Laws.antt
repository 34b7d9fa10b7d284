-- ===== src/Mfs/Bitmap/Laws.antt =====
-- Bitmaps of Project4/mfs.c: a bit that is written is read back, and the others stay.
use bilkent_os_projects.Base.{
  ℕ, ◌/◌, ◌%◌, ◌<◌, ◌≡◌, refl, ◌∙◌, Bool, true, false, ◌==◌, if◌then◌else◌, Bool-cases, inl, inr,
  arith,
}
use bilkent_os_projects.Mfs.Bitmap.{Bytes, mfs_get_bit, mfs_set_bit}
use bilkent_os_projects.Mfs.Bitmap.Byte.{one_if, byte_set_lem}

-- Every place holds a byte.
abbrev pub AreBytes : Bytes → Type 0
AreBytes b = (i : ℕ) → b i < 256

-- After a bit is written, it reads as written and every other bit reads as before.
pub mfs_get_bit-mfs_set_bit :
    (b : Bytes) (i j : ℕ) (v : Bool)
    → AreBytes b
    → mfs_get_bit (mfs_set_bit b i v) j ≡ (if j == i then one_if v else mfs_get_bit b j)
unfolding mfs_get_bit mfs_set_bit
mfs_get_bit-mfs_set_bit b i j v bytes = elim (Bool-cases (j / 8 == i / 8)) [
  | inr apart ↦ let e : (j == i) ≡ false = ground arith in rw (apart, e) refl
  | inl together ↦
      let (read, _) =
        byte_set_lem (b (i / 8)) (i % 8) (j % 8) v (bytes (i / 8)) (omega arith) (omega arith) in
      let same : j / 8 ≡ i / 8 = ground arith in
      elim (Bool-cases (j % 8 == i % 8)) [
        | inl this ↦
            let e : (j == i) ≡ true = ground arith in
            rw (mfs_get_bit, mfs_set_bit, together, e) (rw this at read)
        | inr other ↦
            let e : (j == i) ≡ false = ground arith in
            rw (mfs_get_bit, mfs_set_bit, together, e) (read ∙ rw (other, same) refl)
      ]
]

pub mfs_set_bit-AreBytes :
    (b : Bytes) (i : ℕ) (v : Bool) → AreBytes b → AreBytes (mfs_set_bit b i v)
unfolding mfs_set_bit
mfs_set_bit-AreBytes b i v bytes j =
    let (_, small) =
      byte_set_lem (b (i / 8)) (i % 8) 0 v (bytes (i / 8)) (omega arith) (omega arith) in
    ground (arith, bytes j)
