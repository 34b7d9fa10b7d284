-- ===== src/Words/Sort.antt =====
-- `qsort` with `cmp_occurrence` of findlwt.c and findlwp.c. The order of the records is total and tells
-- different records apart, so that the sorted list is the same for every order of the given records.
use bilkent_os_projects.Base.{
  subst, ◌<◌, ◌≤◌, ◌+◌, ◌≡◌, ◌≢◌, refl, sym, ◌∙◌, ◌⊎◌, inl, inr, Bool, true, false, not, List, [],
  ◌∷◌, ltb, ℤ, pos, negsuc, minus_one, eq_of_parts, pos_part, neg_part, arith, TotalOrder,
  insert_all, insert_all-swap, insert_all-Perm, insert_all-Sorted, Sorted, Perm, append-nil,
}
use bilkent_os_projects.Words.Text.{Text, strcmp}
use bilkent_os_projects.Words.Occurrence.{Occurrence, cmp_occurrence}

abbrev pub is_positive : ℤ → Bool
is_positive (pos n) = ltb 0 n
is_positive (negsuc n) = false

-- What `qsort` asks of the comparison.
unfoldable pub not_above : Occurrence → Occurrence → Bool
not_above a b = not (is_positive (cmp_occurrence a b))

-- The C standard leaves the method open. Insertion gives the one sorted list.
abbrev pub qsort : List Occurrence → List Occurrence
qsort os = insert_all not_above os []

-- The three results of `strcmp`, and what each one says of the reversed call.
abbrev Compared : Text → Text → Type 0
Compared s t =
    ((strcmp s t ≡ pos 0) × (s ≡ t) × (strcmp t s ≡ pos 0))
    ⊎ (((strcmp s t ≡ minus_one) × (strcmp t s ≡ pos 1))
        ⊎ ((strcmp s t ≡ pos 1) × (strcmp t s ≡ minus_one)))

pub strcmp-Compared : (s t : Text) → Compared s t
unfolding strcmp
strcmp-Compared [] [] = inl (refl, refl, refl)
strcmp-Compared [] (d ∷ t) = inr (inl (refl, refl))
strcmp-Compared (c ∷ s) [] = inr (inr (refl, refl))
strcmp-Compared (c ∷ s) (d ∷ t) = let rest = strcmp-Compared s t in ground arith

pub strcmp_trans :
    (s t u : Text) → strcmp s t ≡ minus_one → strcmp t u ≡ minus_one → strcmp s u ≡ minus_one
unfolding strcmp
strcmp_trans [] [] u a b = cc
strcmp_trans (c ∷ s) [] u a b = cc
strcmp_trans s (d ∷ t) [] a b = cc
strcmp_trans [] (d ∷ t) (e ∷ u) a b = refl
strcmp_trans (c ∷ s) (d ∷ t) (e ∷ u) a b = let rest = strcmp_trans s t u in ground arith

not_above-total : (a b : Occurrence) → not_above a b ≡ false → not_above b a ≡ true
unfolding not_above cmp_occurrence
not_above-total a b h = let c = strcmp-Compared a.word b.word in ground arith

same_keys :
    (a b : Occurrence)
    → not_above a b ≡ true
    → not_above b a ≡ true
    → (a.word ≡ b.word) × (a.file_index ≡ b.file_index) × (a.line_no ≡ b.line_no)
unfolding not_above cmp_occurrence
same_keys a b h k =
    let c = strcmp-Compared a.word b.word in
    let f = eq_of_parts a.file_index b.file_index in
    let l = eq_of_parts a.line_no b.line_no in ground arith

-- Not above, by the parts of the numbers.
abbrev IsBelow : Occurrence → Occurrence → Type 0
IsBelow a b =
    let fa = pos_part a.file_index + neg_part b.file_index in
    let fb = pos_part b.file_index + neg_part a.file_index in
    let la = pos_part a.line_no + neg_part b.line_no in
    let lb = pos_part b.line_no + neg_part a.line_no in
    (strcmp a.word b.word ≡ minus_one) ⊎ ((a.word ≡ b.word) × ((fa < fb) ⊎ ((fa ≡ fb) × (la ≤ lb))))

not_above→IsBelow : (a b : Occurrence) → not_above a b ≡ true → IsBelow a b
unfolding not_above cmp_occurrence
not_above→IsBelow a b h = let c = strcmp-Compared a.word b.word in ground arith

IsBelow→not_above : (a b : Occurrence) → IsBelow a b → not_above a b ≡ true
unfolding not_above cmp_occurrence
IsBelow→not_above a b h =
    let c = strcmp-Compared a.word b.word in let r = strcmp-Compared a.word a.word in ground arith

IsBelow-trans : (a b c : Occurrence) → IsBelow a b → IsBelow b c → IsBelow a c
IsBelow-trans a b c (inl h) (inl k) = inl (strcmp_trans a.word b.word c.word h k)
IsBelow-trans a b c (inl h) (inr (e, k)) = inl (subst (λ w. strcmp a.word w ≡ minus_one) e h)
IsBelow-trans a b c (inr (e, h)) (inl k) = inl (subst (λ w. strcmp w c.word ≡ minus_one) (sym e) k)
IsBelow-trans a b c (inr (e, h)) (inr (e', k)) = inr (e ∙ e', ground arith)

not_above-transitive :
    (a b c : Occurrence) → not_above a b ≡ true → not_above b c ≡ true → not_above a c ≡ true
not_above-transitive a b c h k =
    IsBelow→not_above a c (IsBelow-trans a b c (not_above→IsBelow a b h) (not_above→IsBelow b c k))

same_fields :
    {a b : Occurrence}
    → (a.word ≡ b.word) × (a.file_index ≡ b.file_index) × (a.line_no ≡ b.line_no)
    → a ≡ b
same_fields (w, f, l) = λ i. record { file_index = f i; line_no = l i; word = w i }

-- The order of the records, as `qsort` needs it.
by_occurrence : TotalOrder Occurrence
by_occurrence = record {
  not_above = not_above;
  total = not_above-total;
  antisymmetric = λ a b h k. same_fields (same_keys a b h k);
  transitive = not_above-transitive;
}

pub not_above-word : (a b : Occurrence) → not_above a b ≡ true → strcmp a.word b.word ≢ pos 1
not_above-word a b h =
    let below = not_above→IsBelow a b h in let c = strcmp-Compared a.word b.word in λ e. grind arith

pub qsort-Sorted : (os : List Occurrence) → Sorted not_above (qsort os)
unfolding by_occurrence
qsort-Sorted os = insert_all-Sorted by_occurrence os [] tt

pub qsort-Perm : (os : List Occurrence) → Perm (qsort os) os
qsort-Perm os = subst (λ l. Perm (qsort os) l) (append-nil os) (insert_all-Perm not_above os [])

-- The order in which records arrive does not matter.
pub insert_all-arrivals :
    (xs ys s : List Occurrence)
    → insert_all not_above xs (insert_all not_above ys s)
      ≡ insert_all not_above ys (insert_all not_above xs s)
unfolding by_occurrence
insert_all-arrivals xs ys s = insert_all-swap by_occurrence xs ys s
