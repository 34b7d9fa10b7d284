-- ===== src/Mfs/Dir/Names.antt =====
-- Names in the directory entries of Project4/mfs.c.
use bilkent_os_projects.Base.{
  ℕ, zero, suc, ◌+◌, ◌*◌, ◌≤◌, ◌<◌, ◌≡◌, refl, true, false, ◌&&◌, List, [], ◌∷◌, ◌==◌, ltb, leb,
  length, Bool-cases, inl, inr, arith, ap, sym, ◌∙◌,
}
use bilkent_os_projects.Mfs.Bitmap.{Bytes}
use bilkent_os_projects.Mfs.Inode.{from, splice}
use bilkent_os_projects.Mfs.Inode.Words.{splice-inside, splice-outside, get32-inside}
use bilkent_os_projects.Mfs.Dir.{is_string, entry_at, has_name, entry_inode}
use bilkent_os_projects.Mfs.Create.{padded, new_entry}

-- A string is recognised by its bytes and the null byte behind them.
pub is_string-same :
    (b c : Bytes) (name : List ℕ)
    → ((k : ℕ) → k ≤ length name → b k ≡ c k)
    → is_string b name ≡ is_string c name
is_string-same b c [] same = ap (λ x. x == 0) (same 0 (omega arith))
is_string-same b c (x ∷ name) same =
    let head = same 0 (omega arith) in
    let tail =
      is_string-same (λ k. b (suc k)) (λ k. c (suc k)) name (λ k h. same (suc k) (omega arith)) in
    rw (head, tail) refl

is_string-padded : (name : List ℕ) → is_string (padded name) name ≡ true
is_string-padded [] = refl
is_string-padded (x ∷ name) = ground (arith, is_string-padded name)

padded-past : (name : List ℕ) (k : ℕ) → length name ≤ k → padded name k ≡ 0
padded-past [] k h = refl
padded-past (x ∷ name) zero h = absurd (omega arith)
padded-past (x ∷ name) (suc k) h = padded-past name k (omega arith)

name_bytes :
    (number : ℕ) (name : List ℕ) (k : ℕ)
    → length name ≤ 31
    → k ≤ length name
    → new_entry number name (4 + k) ≡ padded name k
name_bytes number name k short h =
    let past : ltb (4 + k) 4 ≡ false = ground arith in
    elim (Bool-cases (ltb (4 + k) 35)) [
      | inl inside ↦ rw (past, inside) (ap (padded name) (omega arith))
      | inr over ↦
          let test : (4 + k == 36) ≡ false = ground arith in
          let none_left = padded-past name k (ground arith) in rw (past, over, test) (sym none_left)
    ]

-- The entry that is made has the name.
pub has_name-new :
    (b : Bytes) (slot number : ℕ) (name : List ℕ)
    → length name ≤ 31
    → has_name name (entry_at (splice b (64 * slot) 64 (new_entry number name)) slot) ≡ true
has_name-new b slot number name short =
    let e = new_entry number name in
    let at_used = splice-inside b e (64 * slot) 64 36 (omega arith) in
    let same =
      is_string-same (from (entry_at (splice b (64 * slot) 64 e) slot) 4) (padded name) name (λ k h.
        splice-inside b e (64 * slot) 64 (4 + k) (omega arith)
        ∙ name_bytes number name k short h) in
    let named = same ∙ is_string-padded name in rw (at_used, named) refl

-- And the number of its inode.
pub entry_inode-new :
    (b : Bytes) (slot number : ℕ) (name : List ℕ)
    → number < 4294967296
    → entry_inode (entry_at (splice b (64 * slot) 64 (new_entry number name)) slot) ≡ number
entry_inode-new b slot number name h =
    get32-inside b (new_entry number name) (64 * slot) 64 0 (omega arith) ∙ omega arith

other_entry :
    (i slot k : ℕ)
    → (i == slot) ≡ false
    → k < 64
    → (leb (64 * slot) (64 * i + k) && ltb (64 * i + k) (64 * slot + 64)) ≡ false
other_entry i slot k differ h = ground arith

-- The name and the mark of another entry are as they were, up to the end of the name.
pub has_name-other :
    (b c : Bytes) (i slot : ℕ) (name : List ℕ)
    → (i == slot) ≡ false
    → length name ≤ 31
    → has_name name (entry_at (splice b (64 * slot) 64 c) i) ≡ has_name name (entry_at b i)
has_name-other b c i slot name differ short =
    let at_used =
      splice-outside b c (64 * slot) 64 (64 * i + 36)
        (other_entry i slot 36 differ (omega arith)) in
    let same =
      is_string-same (from (entry_at (splice b (64 * slot) 64 c) i) 4) (from (entry_at b i) 4) name
        (λ k h.
          splice-outside b c (64 * slot) 64 (64 * i + (4 + k))
            (other_entry i slot (4 + k) differ (omega arith))) in
    rw (at_used, same) refl
