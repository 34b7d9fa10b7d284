-- ===== src/Base/Sorting.antt =====
-- Insertion into a sorted list, for a total order that is a function into Bool.
use mathlib.Core.Logic.{inl, inr}
use mathlib.Core.Path.{◌≡◌, refl, sym, ap, ◌∙◌}
use mathlib.Core.Bool.{Bool, true, false}
use native.Mathlib.Omega.{arith}
use mathlib.Core.List.{List, [], ◌∷◌, ◌++◌, Perm}
use mathlib.Core.List.Perm
use bilkent_os_projects.Base.Tests.{if◌then◌else◌, Bool-cases}

pub record TotalOrder {ℓ} (A : Type ℓ) : Type ℓ where
  pub not_above : A → A → Bool
  pub total : (a b : A) → not_above a b ≡ false → not_above b a ≡ true
  pub antisymmetric : (a b : A) → not_above a b ≡ true → not_above b a ≡ true → a ≡ b
  pub transitive : (a b c : A) → not_above a b ≡ true → not_above b c ≡ true → not_above a c ≡ true

module _ {ℓ} {A : Type ℓ} (le : A → A → Bool) where
  unfoldable pub insert : A → List A → List A
  insert x [] = x ∷ []
  insert x (y ∷ ys) = let rest = insert x ys in if le x y then x ∷ y ∷ ys else y ∷ rest

  unfoldable pub insert_all : List A → List A → List A
  insert_all [] s = s
  insert_all (x ∷ xs) s = insert x (insert_all xs s)

module _ {ℓ} {A : Type ℓ} (O : TotalOrder A) where
  insert_below :
      (x y : A) (s : List A)
      → O.not_above x y ≡ true
      → insert O.not_above x (insert O.not_above y s)
        ≡ insert O.not_above y (insert O.not_above x s)
  unfolding insert
  insert_below x y [] below = let same = O.antisymmetric x y below in grind arith
  insert_below x y (z ∷ s) below =
      let same = O.antisymmetric x y below in
      let past = O.transitive x y z below in
      let back = O.transitive y x z in let rest = insert_below x y s below in grind arith

  pub insert_comm :
      (x y : A) (s : List A)
      → insert O.not_above x (insert O.not_above y s)
        ≡ insert O.not_above y (insert O.not_above x s)
  insert_comm x y s =
      let back = O.total x y in
      elim (Bool-cases (O.not_above x y)) [
        | inl a ↦ insert_below x y s a
        | inr a ↦ sym (insert_below y x s (back a))
      ]

  past_all :
      (x : A) (ys s : List A)
      → insert O.not_above x (insert_all O.not_above ys s)
        ≡ insert_all O.not_above ys (insert O.not_above x s)
  unfolding insert_all
  past_all x [] s = refl
  past_all x (y ∷ ys) s =
      insert_comm x y (insert_all O.not_above ys s) ∙ ap (insert O.not_above y) (past_all x ys s)

  pub insert_all-swap :
      (xs ys s : List A)
      → insert_all O.not_above xs (insert_all O.not_above ys s)
        ≡ insert_all O.not_above ys (insert_all O.not_above xs s)
  unfolding insert_all
  insert_all-swap [] ys s = refl
  insert_all-swap (x ∷ xs) ys s =
      ap (insert O.not_above x) (insert_all-swap xs ys s)
      ∙ past_all x ys (insert_all O.not_above xs s)

module _ {ℓ} {A : Type ℓ} (le : A → A → Bool) where
  pub insert_all-append :
      (xs ys s : List A) → insert_all le (xs ++ ys) s ≡ insert_all le xs (insert_all le ys s)
  unfolding insert_all
  insert_all-append [] ys s = refl
  insert_all-append (x ∷ xs) ys s = ap (insert le x) (insert_all-append xs ys s)

  pub insert-Perm : (x : A) (s : List A) → Perm (insert le x s) (x ∷ s)
  unfolding insert
  insert-Perm x [] = Perm.rfl
  insert-Perm x (y ∷ s) = elim (Bool-cases (le x y)) [
    | inl e ↦ rw e Perm.rfl
    | inr e ↦ rw e (Perm.trans (Perm.cons y (insert-Perm x s)) (Perm.swap x y s))
  ]

  pub insert_all-Perm : (xs s : List A) → Perm (insert_all le xs s) (xs ++ s)
  unfolding insert_all
  insert_all-Perm [] s = Perm.rfl
  insert_all-Perm (x ∷ xs) s =
      Perm.trans (insert-Perm x (insert_all le xs s)) (Perm.cons x (insert_all-Perm xs s))

  -- No element is above the next one.
  abbrev pub SortedFrom : A → List A → Type 0
  SortedFrom x [] = Unit
  SortedFrom x (y ∷ ys) = (le x y ≡ true) × SortedFrom y ys

  abbrev pub Sorted : List A → Type 0
  Sorted [] = Unit
  Sorted (x ∷ xs) = SortedFrom x xs

module _ {ℓ} {A : Type ℓ} (O : TotalOrder A) where
  insert-SortedFrom :
      (p x : A) (s : List A)
      → O.not_above p x ≡ true
      → SortedFrom O.not_above p s
      → SortedFrom O.not_above p (insert O.not_above x s)
  unfolding insert
  insert-SortedFrom p x [] h s = (h, tt)
  insert-SortedFrom p x (y ∷ ys) h s = elim (Bool-cases (O.not_above x y)) [
    | inl e ↦ rw e (h, (e, s.1))
    | inr e ↦ rw e (s.0, insert-SortedFrom y x ys (O.total x y e) s.1)
  ]

  insert-Sorted :
      (x : A) (s : List A) → Sorted O.not_above s → Sorted O.not_above (insert O.not_above x s)
  unfolding insert
  insert-Sorted x [] h = tt
  insert-Sorted x (y ∷ ys) h = elim (Bool-cases (O.not_above x y)) [
    | inl e ↦ rw e (e, h)
    | inr e ↦ rw e (insert-SortedFrom y x ys (O.total x y e) h)
  ]

  pub insert_all-Sorted :
      (xs s : List A) → Sorted O.not_above s → Sorted O.not_above (insert_all O.not_above xs s)
  unfolding insert_all
  insert_all-Sorted [] s h = h
  insert_all-Sorted (x ∷ xs) s h =
      insert-Sorted x (insert_all O.not_above xs s) (insert_all-Sorted xs s h)
