-- ===== src/Words/Pipe/Records.antt =====
-- The parent of findlwp.c reads the records that its children printed.
use bilkent_os_projects.Base.{
  ℕ, zero, suc, ◌+◌, ◌/◌, ◌%◌, ◌<◌, ◌≡◌, ◌≢◌, refl, sym, ap, ap₂, ◌∙◌, subst, false, List, [], ◌∷◌,
  ◌++◌, append_assoc, arith, ◌==◌, ltb, Bool-cases, inl, inr, All, All-append, All-map, pos,
}
use bilkent_os_projects.Words.Text.{Text, c_string, is_space, digits, decimal}
use bilkent_os_projects.Words.Occurrence.{Occurrence}
use bilkent_os_projects.Words.Record.{print_fields, print_record}
use bilkent_os_projects.Words.Record.RoundTrip.{IsPlain, occurrence, parse_record_line-print_fields}
use bilkent_os_projects.Words.Pipe.Writing.{print_records}
use bilkent_os_projects.Words.Pipe.Delivery.{line_record, records_from}
use bilkent_os_projects.Words.Pipe.Lines.{records_from-kept}

-- A record that the parent reads as it was sent: the word has no byte that `isspace` accepts and no
-- null byte, and the numbers fit an `int`.
pub record IsSendable (o : Occurrence) : Type 0 where
  pub plain : IsPlain o.word
  pub no_null : All (λ c. c ≢ 0) o.word
  pub file : ℕ
  pub line : ℕ
  pub of_file : o.file_index ≡ pos file
  pub of_line : o.line_no ≡ pos line
  pub small : (file < 2147483648) × (line < 2147483648)

-- A byte that may stand in a line.
abbrev IsLineByte : ℕ → Type 0
IsLineByte c = (c ≢ 0) × ((c == b'\n') ≡ false)

digits-IsLineByte : (f n : ℕ) → All IsLineByte (digits f n)
unfolding digits
digits-IsLineByte zero n = tt
digits-IsLineByte (suc f) n = elim (Bool-cases (ltb n 10)) [
  | inl e ↦ rw e (((λ z. omega arith), ground arith), tt)
  | inr e ↦ rw e (
      All-append IsLineByte (digits f (n / 10)) ((b'0' + n % 10) ∷ [])
        (digits-IsLineByte f (n / 10)) (((λ z. omega arith), ground arith), tt))
]

decimal-IsLineByte : (n : ℕ) → All IsLineByte (decimal (pos n))
unfolding decimal
decimal-IsLineByte n = digits-IsLineByte (suc n) n

word-IsLineByte :
    (w : Text) → All (λ c. is_space c ≡ false) w → All (λ c. c ≢ 0) w → All IsLineByte w
word-IsLineByte [] h k = tt
word-IsLineByte (c ∷ w) h k = ((k.0, ground arith), word-IsLineByte w h.1 k.1)

c_string-same : (s : Text) → All IsLineByte s → c_string s ≡ s
unfolding c_string
c_string-same [] h = refl
c_string-same (c ∷ s) h =
    let test : (c == 0) ≡ false = ground arith in rw test (ap (λ t. c ∷ t) (c_string-same s h.1))

fields-IsLineByte :
    (w : Text) (i line : ℕ)
    → All IsLineByte w
    → All IsLineByte (print_fields (occurrence (pos i) (pos line) w))
fields-IsLineByte w i line h =
    All-append IsLineByte w (b' ' ∷ (decimal (pos i) ++ b' ' ∷ decimal (pos line))) h (
      ((λ z. omega arith), refl),
      All-append IsLineByte (decimal (pos i)) (b' ' ∷ decimal (pos line)) (decimal-IsLineByte i)
          (((λ z. omega arith), refl), decimal-IsLineByte line),
    )

occurrence-fields :
    (o : Occurrence) (s : IsSendable o) → o ≡ occurrence (pos s.file) (pos s.line) o.word
occurrence-fields o s = ap₂ (λ f l. occurrence f l o.word) s.of_file s.of_line

line_record-print_fields :
    (o : Occurrence)
    → IsSendable o
    → (line_record (print_fields o) ≡ o ∷ []) × All IsLineByte (print_fields o)
line_record-print_fields o s =
    let bytes =
      fields-IsLineByte o.word s.file s.line (word-IsLineByte o.word s.plain.1 s.no_null) in
    let read = parse_record_line-print_fields o.word s.file s.line s.plain s.small.0 s.small.1 in
    let same = c_string-same (print_fields (occurrence (pos s.file) (pos s.line) o.word)) bytes in
    let back = sym (occurrence-fields o s) in
    subst (λ p. (line_record (print_fields p) ≡ p ∷ []) × All IsLineByte (print_fields p)) back
      (rw (line_record, same, read) refl, bytes)

pub records_from-print_records :
    (os : List Occurrence) → All IsSendable os → records_from [] (print_records os) ≡ os
unfolding records_from print_records print_record
records_from-print_records [] h = refl
records_from-print_records (o ∷ os) h =
    let (read, bytes) = line_record-print_fields o h.0 in
    let line = All-map IsLineByte (λ c. (c == b'\n') ≡ false) (print_fields o) (λ c b. b.1) bytes in
    let rest = print_records os in
    ap (records_from []) (append_assoc (print_fields o) (b'\n' ∷ []) rest)
    ∙ (records_from-kept [] (print_fields o) (b'\n' ∷ rest) line).0
    ∙ ap₂ (λ xs ys. xs ++ ys) read (records_from-print_records os h.1)
