-- ===== src/Mfs/Bitmap/Byte.antt =====
-- One byte of a bitmap of Project4/mfs.c, checked for every byte.
use bilkent_os_projects.Base.{
  ℕ, ◌<◌, ◌≡◌, refl, Bool, true, false, ◌&&◌, ◌==◌, ltb, if◌then◌else◌, all_below, all_below-true,
  arith,
}
use bilkent_os_projects.Mfs.Bitmap.{byte_bit, byte_set}

abbrev pub one_if : Bool → ℕ
one_if true = 1
one_if false = 0

byte_table :
    all_below 256 (λ x. all_below 8 (λ k. all_below 8 (λ j.
      (byte_bit (byte_set x k true) j == (if j == k then 1 else byte_bit x j))
      && (byte_bit (byte_set x k false) j == (if j == k then 0 else byte_bit x j))
      && ltb (byte_set x k true) 256
      && ltb (byte_set x k false) 256)))
    ≡ true
unfolding all_below
byte_table = refl

-- Writing bit k of a byte writes that bit, keeps the others, and stays a byte.
pub byte_set_lem :
    (x k j : ℕ) (v : Bool)
    → x < 256
    → k < 8
    → j < 8
    → (byte_bit (byte_set x k v) j ≡ (if j == k then one_if v else byte_bit x j))
      × (byte_set x k v < 256)
byte_set_lem x k j true hx hk hj =
    let row =
      all_below-true 8 _ (all_below-true 8 _ (all_below-true 256 _ byte_table x hx) k hk) j hj in
    ground (arith, row)
byte_set_lem x k j false hx hk hj =
    let row =
      all_below-true 8 _ (all_below-true 8 _ (all_below-true 256 _ byte_table x hx) k hk) j hj in
    ground (arith, row)
