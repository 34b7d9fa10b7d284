-- ===== src/Tus/Queue/Contents.antt =====
-- What the ring of Project2/tus.c holds, oldest first, and when it is in order.
use bilkent_os_projects.Base.{
  ℕ, zero, suc, ◌+◌, ◌%◌, ◌≤◌, ◌<◌, ◌≡◌, ◌≢◌, refl, ap, ap₂, ◌∙◌, Option, List, [], ◌∷◌, ◌++◌,
  length, get_elem?, set, get_elem?-set_ne, arith,
}
use bilkent_os_projects.Tus.Queue.{Ring, entry}

-- The n entries from place h on, where places are counted round the ring.
abbrev pub around : List ℕ → ℕ → ℕ → List ℕ
around buf h zero = []
around buf h (suc n) = entry (get_elem? buf (h % 64)) ∷ around buf (suc h) n

abbrev pub contents : Ring → List ℕ
contents q = around q.ready_q q.head q.size

pub record IsValid (q : Ring) : Type 0 where
  pub full_array : length q.ready_q ≡ 64
  pub head_in : q.head < 64
  pub tail_at : q.tail ≡ (q.head + q.size) % 64
  pub size_in : q.size ≤ 64

pub length-around : (buf : List ℕ) (h n : ℕ) → length (around buf h n) ≡ n
length-around buf h zero = refl
length-around buf h (suc n) = ap suc (length-around buf (suc h) n)

-- Places that differ by whole turns are the same.
pub around-mod : (buf : List ℕ) (h k n : ℕ) → h % 64 ≡ k % 64 → around buf h n ≡ around buf k n
around-mod buf h k zero e = refl
around-mod buf h k (suc n) e =
    ap₂ (λ (i : ℕ) (l : List ℕ). entry (get_elem? buf i) ∷ l) e
      (around-mod buf (suc h) (suc k) n (omega arith))

-- A write outside the stretch is not seen.
pub around-set_outside :
    (buf : List ℕ) (h n i x : ℕ)
    → ((m : ℕ) → m < n → i ≢ (h + m) % 64)
    → around (set buf i x) h n ≡ around buf h n
around-set_outside buf h zero i x out = refl
around-set_outside buf h (suc n) i x out =
    ap₂ (λ (o : Option ℕ) (l : List ℕ). entry o ∷ l)
      (get_elem?-set_ne buf x (λ e. out 0 (omega arith) (omega arith)))
      (around-set_outside buf (suc h) n i x (λ m lt e. out (suc m) (omega arith) (omega arith)))

-- The stretch of n + 1 entries is that of n entries and one more.
pub around-snoc :
    (buf : List ℕ) (h n : ℕ)
    → around buf h (suc n) ≡ around buf h n ++ entry (get_elem? buf ((h + n) % 64)) ∷ []
around-snoc buf h zero = ap (λ (i : ℕ). entry (get_elem? buf i) ∷ []) (omega arith)
around-snoc buf h (suc n) = ap (◌∷◌ (entry (get_elem? buf (h % 64)))) (
    around-snoc buf (suc h) n
    ∙ ap (λ (i : ℕ). around buf (suc h) n ++ entry (get_elem? buf i) ∷ []) (omega arith))
