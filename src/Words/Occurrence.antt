-- ===== src/Words/Occurrence.antt =====
-- The records of findlwt.c and findlwp.c (lines 12-16 of the first) and their order
-- (`cmp_occurrence`, `occ_push`, which findlwp.c calls `pipe_push`).
use bilkent_os_projects.Base.{
  ℕ, ◌*◌, Bool, false, not, List, [], ◌∷◌, ◌++◌, ◌==◌, if◌then◌else◌, length, ℤ, pos, negsuc, ◌-ℤ◌,
}
use bilkent_os_projects.Words.Text.{Text, strcmp}

pub record Occurrence : Type 0 where
  pub file_index : ℤ
  pub line_no : ℤ
  pub word : Text

abbrev pub is_zero : ℤ → Bool
is_zero (pos n) = n == 0
is_zero (negsuc n) = false

-- Indices and line numbers are positive, so that no difference overflows an `int`.
unfoldable pub cmp_occurrence : Occurrence → Occurrence → ℤ
cmp_occurrence a b =
    let c = strcmp a.word b.word in
    if not (is_zero c)
    then c
    else if not (is_zero (a.file_index -ℤ b.file_index))
    then a.file_index -ℤ b.file_index
    else a.line_no -ℤ b.line_no

-- A growing array: `size` is the number of items.
pub record OccurrenceVec : Type 0 where
  pub items : List Occurrence
  pub cap : ℕ

abbrev pub empty : OccurrenceVec
empty = record { items = []; cap = 0 }

unfoldable pub occ_push : OccurrenceVec → Occurrence → OccurrenceVec
occ_push v o = record {
  items = v.items ++ o ∷ [];
  cap = if length v.items == v.cap then (if v.cap == 0 then 256 else v.cap * 2) else v.cap;
}

unfoldable pub push_occurrences : OccurrenceVec → List Occurrence → OccurrenceVec
push_occurrences v [] = v
push_occurrences v (o ∷ os) = push_occurrences (occ_push v o) os
