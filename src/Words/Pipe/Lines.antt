-- ===== src/Words/Pipe/Lines.antt =====
-- The parent of findlwp.c takes the same lines from a stream however the stream is cut.
use bilkent_os_projects.Base.{
  ◌≡◌, refl, sym, ap, ◌∙◌, false, List, [], ◌∷◌, ◌++◌, append_assoc, append-nil, ◌==◌, Bool-cases,
  inl, inr, All-snoc, Option-cases,
}
use bilkent_os_projects.Words.Text.{Text, c_string}
use bilkent_os_projects.Words.Occurrence.{Occurrence, OccurrenceVec, occ_push, push_occurrences}
use bilkent_os_projects.Words.Record.{parse_record_line}
use bilkent_os_projects.Words.Pipe.Reader.{push_line, take_lines}
use bilkent_os_projects.Words.Pipe.Delivery.{line_record, records_from, rest_from, NoNewline}

pub push_occurrences-append :
    (v : OccurrenceVec) (os ps : List Occurrence)
    → push_occurrences v (os ++ ps) ≡ push_occurrences (push_occurrences v os) ps
unfolding push_occurrences
push_occurrences-append v [] ps = refl
push_occurrences-append v (o ∷ os) ps = push_occurrences-append (occ_push v o) os ps

pub items-push_occurrences :
    (v : OccurrenceVec) (os : List Occurrence) → (push_occurrences v os).items ≡ v.items ++ os
unfolding push_occurrences occ_push
items-push_occurrences v [] = sym (append-nil v.items)
items-push_occurrences v (o ∷ os) =
    items-push_occurrences (occ_push v o) os ∙ append_assoc v.items (o ∷ []) os

push_line_lem :
    (v : OccurrenceVec) (line : Text) → push_line v line ≡ push_occurrences v (line_record line)
unfolding push_line push_occurrences
push_line_lem v line = elim (Option-cases (parse_record_line (c_string line))) [
  | inl e ↦ rw (push_line, line_record, e) refl
  | inr (o, e) ↦ rw (push_line, line_record, e) refl
]

-- The loop over the newlines pushes the records of the complete lines, in order, and keeps the rest.
pub take_lines_lem :
    (v : OccurrenceVec) (start s : Text)
    → take_lines v start s ≡ (push_occurrences v (records_from start s), rest_from start s)
unfolding take_lines records_from rest_from push_occurrences
take_lines_lem v start [] = refl
take_lines_lem v start (c ∷ s) = elim (Bool-cases (c == b'\n')) [
  | inl e ↦ rw e (
      ap (λ u. take_lines u [] s) (push_line_lem v start)
      ∙ take_lines_lem (push_occurrences v (line_record start)) [] s
      ∙ ap (λ u. (u, rest_from [] s))
          (sym (push_occurrences-append v (line_record start) (records_from [] s))))
  | inr e ↦ rw e (take_lines_lem v (start ++ c ∷ []) s)
]

pub records_from-append :
    (start s t : Text)
    → records_from start (s ++ t) ≡ records_from start s ++ records_from (rest_from start s) t
unfolding records_from rest_from
records_from-append start [] t = refl
records_from-append start (c ∷ s) t = elim (Bool-cases (c == b'\n')) [
  | inl e ↦ rw e (
      ap (λ l. line_record start ++ l) (records_from-append [] s t)
      ∙ sym
          (append_assoc (line_record start) (records_from [] s) (records_from (rest_from [] s) t)))
  | inr e ↦ rw e (records_from-append (start ++ c ∷ []) s t)
]

pub rest_from-NoNewline : (start s : Text) → NoNewline start → NoNewline (rest_from start s)
unfolding rest_from
rest_from-NoNewline start [] h = h
rest_from-NoNewline start (c ∷ s) h = elim (Bool-cases (c == b'\n')) [
  | inl e ↦ rw e (rest_from-NoNewline [] s tt)
  | inr e ↦
      rw e
        (rest_from-NoNewline (start ++ c ∷ []) s (All-snoc (λ c. (c == b'\n') ≡ false) start c h e))
]

-- The bytes that were kept count as the start of a line.
pub records_from-kept :
    (start kept s : Text)
    → NoNewline kept
    → (records_from start (kept ++ s) ≡ records_from (start ++ kept) s)
      × (rest_from start (kept ++ s) ≡ rest_from (start ++ kept) s)
unfolding records_from rest_from
records_from-kept start [] s h = rw (append-nil start) (refl, refl)
records_from-kept start (c ∷ kept) s h =
    rw (h.0, sym (append_assoc start (c ∷ []) kept))
      (records_from-kept (start ++ c ∷ []) kept s h.1)
