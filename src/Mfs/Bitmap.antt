-- ===== src/Mfs/Bitmap.antt =====
-- `mfs_get_bit` and `mfs_set_bit` of Project4/mfs.c (lines 40-52; Project4/make_mfs.c has a copy).
-- Children: `Byte` (one byte), `Laws` (a whole bitmap).
pub mod Byte
pub mod Laws
use Prim.Native.Nat.{bit_and, bit_or}
use bilkent_os_projects.Base.{ℕ, ◌+◌, ◌-◌, ◌/◌, ◌%◌, ◌^◌, Bool, true, false, ◌==◌, if◌then◌else◌}

-- A block, by the place of a byte. A block has 16384 of them.
abbrev pub Bytes : Type 0
Bytes = ℕ → ℕ

abbrev pub write_byte : Bytes → ℕ → ℕ → Bytes
write_byte b i v = λ j. if j == i then v else b j

-- The operations on one byte: shift and mask, set, and clear.
abbrev pub byte_bit : ℕ → ℕ → ℕ
byte_bit x k = bit_and (x / 2 ^ k) 1

abbrev pub byte_set : ℕ → ℕ → Bool → ℕ
byte_set x k true = bit_or x (2 ^ k)
byte_set x k false = bit_and x (255 - 2 ^ k)

unfoldable pub mfs_get_bit : Bytes → ℕ → ℕ
mfs_get_bit bitmap bit = byte_bit (bitmap (bit / 8)) (bit % 8)

unfoldable pub mfs_set_bit : Bytes → ℕ → Bool → Bytes
mfs_set_bit bitmap bit value =
    write_byte bitmap (bit / 8) (byte_set (bitmap (bit / 8)) (bit % 8) value)
