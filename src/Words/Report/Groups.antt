-- ===== src/Words/Report/Groups.antt =====
-- What the runs of records are that the report of findlwt.c and findlwp.c has a line for each.
use bilkent_os_projects.Base.{
  minus_one, All-snoc, Sorted, SortedFrom, Perm, subst, ◌≡◌, refl, ap, ◌∙◌, inl, inr, ◌≢◌, List, [],
  ◌∷◌, ◌++◌, append_assoc, All, arith, pos, Bool-cases,
}
use bilkent_os_projects.Words.Text.{Text, strcmp}
use bilkent_os_projects.Words.Occurrence.{Occurrence, is_zero}
use bilkent_os_projects.Words.Sort.{
  strcmp-Compared, not_above, not_above-word, qsort, qsort-Sorted, qsort-Perm,
}
use bilkent_os_projects.Words.Report.{Group, groups, groups_from}

-- The records of some runs, in order.
unfoldable pub ungroup : List Group → List Occurrence
ungroup [] = []
ungroup (g ∷ gs) = g.first ∷ g.others ++ ungroup gs

-- All records of a run have its word.
abbrev pub IsUniform : Group → Type 0
IsUniform g = All (λ o. g.first.word ≡ o.word) g.others

-- The words of the runs ascend from one to the next.
abbrev pub Ascends : Occurrence → List Group → Type 0
Ascends o [] = Unit
Ascends o (g ∷ gs) = (strcmp o.word g.first.word ≡ minus_one) × Ascends g.first gs

abbrev pub IsAscending : List Group → Type 0
IsAscending [] = Unit
IsAscending (g ∷ gs) = Ascends g.first gs

pub ungroup-groups_from :
    (first : Occurrence) (others os : List Occurrence)
    → ungroup (groups_from first others os) ≡ first ∷ others ++ os
unfolding ungroup groups_from
ungroup-groups_from first others [] = refl
ungroup-groups_from first others (o ∷ os) =
    let longer = ungroup-groups_from first (others ++ o ∷ []) os in
    let fresh = ungroup-groups_from o [] os in
    elim (Bool-cases (is_zero (strcmp first.word o.word))) [
      | inl e ↦ rw e (longer ∙ ap (λ l. first ∷ l) (append_assoc others (o ∷ []) os))
      | inr e ↦ rw e (ap (λ l. first ∷ others ++ l) fresh)
    ]

groups_from-IsUniform :
    (first : Occurrence) (others os : List Occurrence)
    → All (λ o. first.word ≡ o.word) others
    → All IsUniform (groups_from first others os)
unfolding groups_from
groups_from-IsUniform first others [] u = (u, tt)
groups_from-IsUniform first others (o ∷ os) u =
    let c = strcmp-Compared first.word o.word in
    elim (Bool-cases (is_zero (strcmp first.word o.word))) [
      | inl e ↦ rw e (
          groups_from-IsUniform first (others ++ o ∷ []) os
            (All-snoc (λ o. first.word ≡ o.word) others o u (grind arith)))
      | inr e ↦ rw e (u, groups_from-IsUniform o [] os tt)
    ]

-- A record in order is not behind the next one by its word.
abbrev WordsFrom : Text → List Occurrence → Type 0
WordsFrom w [] = Unit
WordsFrom w (o ∷ os) = (strcmp w o.word ≢ pos 1) × WordsFrom o.word os

SortedFrom→WordsFrom :
    (o : Occurrence) (os : List Occurrence) → SortedFrom not_above o os → WordsFrom o.word os
SortedFrom→WordsFrom o [] s = tt
SortedFrom→WordsFrom o (p ∷ ps) s = (not_above-word o p s.0, SortedFrom→WordsFrom p ps s.1)

groups_from-Ascends :
    (o first : Occurrence) (others os : List Occurrence)
    → strcmp o.word first.word ≡ minus_one
    → WordsFrom first.word os
    → Ascends o (groups_from first others os)
unfolding groups_from
groups_from-Ascends p first others [] below s = (below, tt)
groups_from-Ascends p first others (o ∷ os) below s =
    let c = strcmp-Compared first.word o.word in
    elim (Bool-cases (is_zero (strcmp first.word o.word))) [
      | inl e ↦ rw e (
          groups_from-Ascends p first (others ++ o ∷ []) os below
            (let same : o.word ≡ first.word = grind arith in subst (λ w. WordsFrom w os) same s.1))
      | inr e ↦ rw e (below, groups_from-Ascends first o [] os (grind arith) s.1)
    ]

groups_from-IsAscending :
    (first : Occurrence) (others os : List Occurrence)
    → WordsFrom first.word os
    → IsAscending (groups_from first others os)
unfolding groups_from
groups_from-IsAscending first others [] s = tt
groups_from-IsAscending first others (o ∷ os) s =
    let c = strcmp-Compared first.word o.word in
    elim (Bool-cases (is_zero (strcmp first.word o.word))) [
      | inl e ↦ rw e (
          groups_from-IsAscending first (others ++ o ∷ []) os
            (let same : o.word ≡ first.word = grind arith in subst (λ w. WordsFrom w os) same s.1))
      | inr e ↦ rw e (groups_from-Ascends first o [] os (grind arith) s.1)
    ]

groups-Sorted :
    (os : List Occurrence)
    → Sorted not_above os
    → (ungroup (groups os) ≡ os) × All IsUniform (groups os) × IsAscending (groups os)
unfolding groups ungroup
groups-Sorted [] s = (refl, tt, tt)
groups-Sorted (o ∷ os) s = (
  ungroup-groups_from o [] os,
  groups_from-IsUniform o [] os tt,
  groups_from-IsAscending o [] os (SortedFrom→WordsFrom o os s),
)

-- The runs of the sorted records: their records are the given ones in the order of `qsort`, a
-- permutation of them; each run has one word; the words ascend strictly, so that
-- no word has two runs.
pub groups-qsort :
    (os : List Occurrence)
    → (ungroup (groups (qsort os)) ≡ qsort os)
      × Perm (qsort os) os
      × All IsUniform (groups (qsort os))
      × IsAscending (groups (qsort os))
groups-qsort os =
    let (same, uniform, ascending) = groups-Sorted (qsort os) (qsort-Sorted os) in
    (same, qsort-Perm os, uniform, ascending)
