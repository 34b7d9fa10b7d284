-- ===== src/Mfs/Inode/Words.antt =====
-- Numbers as bytes in the structs of Project4/mfs.h.
use bilkent_os_projects.Base.{ℕ, ◌+◌, ◌≤◌, ◌<◌, ◌≡◌, refl, ap, true, false, ◌&&◌, ltb, leb, arith}
use bilkent_os_projects.Mfs.Bitmap.{Bytes}
use bilkent_os_projects.Mfs.Inode.{from, splice, get32, get64}

-- A byte inside and outside of what is written over.
pub splice-inside : (b c : Bytes) (o n k : ℕ) → k < n → splice b o n c (o + k) ≡ c k
splice-inside b c o n k h =
    let test : (leb o (o + k) && ltb (o + k) (o + n)) ≡ true = ground arith in
    rw test (ap c (omega arith))

pub splice-outside :
    (b c : Bytes) (o n j : ℕ) → (leb o j && ltb j (o + n)) ≡ false → splice b o n c j ≡ b j
splice-outside b c o n j h = rw h refl

-- A number inside of what is written over is that of what is written.
pub get32-inside :
    (b c : Bytes) (o n p : ℕ) → p + 4 ≤ n → get32 (from (splice b o n c) o) p ≡ get32 c p
get32-inside b c o n p h = omega (
  arith,
  splice-inside b c o n p (omega arith),
  splice-inside b c o n (p + 1) (omega arith),
  splice-inside b c o n (p + 2) (omega arith),
  splice-inside b c o n (p + 3) (omega arith),
)

pub get64-inside :
    (b c : Bytes) (o n p : ℕ) → p + 8 ≤ n → get64 (from (splice b o n c) o) p ≡ get64 c p
get64-inside b c o n p h =
    omega (arith, get32-inside b c o n p (omega arith), get32-inside b c o n (p + 4) (omega arith))
