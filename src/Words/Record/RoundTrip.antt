-- ===== src/Words/Record/RoundTrip.antt =====
-- What `parse_record_line` of findlwp.c reads in a printed record, by way of `strtol` and "%d".
use bilkent_os_projects.Base.{
  ◌≡◌, ap₂, subst, refl, sym, ap, ◌∙◌, inl, inr, ◌≢◌, [], ◌∷◌, ◌++◌, append_assoc, append-nil, All,
  arith, pos, Bool-cases, true, false, ℕ, zero, ◌+◌, ◌-◌, ◌*◌, ◌/◌, ◌%◌, ◌≤◌, ◌<◌, suc, ℤ, ◌==◌,
  ltb, some, min,
}
use bilkent_os_projects.Words.Text.{
  Text, is_space, is_digit, scan_digits, digits, decimal, strtol, strtol_digits, skip_spaces,
  span_word, to_int, max_long, starts_digit,
}
use bilkent_os_projects.Words.Occurrence.{Occurrence}
use bilkent_os_projects.Words.Record.{print_fields, parse_record_line, not_empty}

-- A rest that does not go on with a digit.
abbrev pub EndsNumber : Text → Type 0
EndsNumber rest = starts_digit rest ≡ false

scan_digits-digit :
    (m d n : ℕ) (rest : Text)
    → d < 10
    → m * 10 + d ≡ n
    → scan_digits m ((b'0' + d) ∷ rest) ≡ scan_digits n rest
unfolding scan_digits
scan_digits-digit m d n rest h e =
    let test : is_digit (b'0' + d) ≡ true = ground arith in
    let value : m * 10 + (b'0' + d - b'0') ≡ n = omega arith in
    rw test (ap (λ k. scan_digits k rest) value)

scan_digits-digits :
    (f n : ℕ) (rest : Text) → n < f → scan_digits 0 (digits f n ++ rest) ≡ scan_digits n rest
unfolding digits
scan_digits-digits zero n rest h = absurd (omega arith)
scan_digits-digits (suc f) n rest h = elim (Bool-cases (ltb n 10)) [
  | inl e ↦ rw e (scan_digits-digit 0 n n rest (ground arith) (omega arith))
  | inr e ↦
      let last = n % 10 in
      let value : n / 10 * 10 + n % 10 ≡ n = omega arith in
      rw e (
        ap (scan_digits 0) (append_assoc (digits f (n / 10)) ((b'0' + last) ∷ []) rest)
        ∙ scan_digits-digits f (n / 10) ((b'0' + last) ∷ rest) (ground arith)
        ∙ scan_digits-digit (n / 10) last n rest (omega arith) value)
]

-- A number starts with a digit.
abbrev StartsDigit : Text → Type 0
StartsDigit s = (c : ℕ) × (t : Text) × (s ≡ c ∷ t) × (is_digit c ≡ true)

digits-StartsDigit : (f n : ℕ) (rest : Text) → n < f → StartsDigit (digits f n ++ rest)
unfolding digits
digits-StartsDigit zero n rest h = absurd (omega arith)
digits-StartsDigit (suc f) n rest h = elim (Bool-cases (ltb n 10)) [
  | inl e ↦ rw e (b'0' + n, rest, refl, ground arith)
  | inr e ↦
      let last = (b'0' + n % 10) ∷ [] in
      rw e (
        subst StartsDigit (sym (append_assoc (digits f (n / 10)) last rest))
          (digits-StartsDigit f (n / 10) (last ++ rest) (ground arith)))
]

scan_digits-end : (n : ℕ) (rest : Text) → EndsNumber rest → scan_digits n rest ≡ (n, rest)
unfolding scan_digits
scan_digits-end n [] h = refl
scan_digits-end n (c ∷ s) h = rw h refl

pub skip_spaces-word : (c : ℕ) (s : Text) → is_space c ≡ false → skip_spaces (c ∷ s) ≡ c ∷ s
unfolding skip_spaces
skip_spaces-word c s h = rw h refl

strtol-digit :
    (c : ℕ) (t : Text) (n : ℕ) (rest : Text)
    → is_digit c ≡ true
    → n ≤ max_long
    → scan_digits 0 (c ∷ t) ≡ (n, rest)
    → strtol (c ∷ t) ≡ some (pos n, rest)
unfolding strtol strtol_digits skip_spaces
strtol-digit c t n rest d small read =
    let space : is_space c ≡ false = ground arith in
    let minus : (c == b'-') ≡ false = ground arith in
    let plus : (c == b'+') ≡ false = ground arith in
    let bounded : min n max_long ≡ n = ground arith in
    let kept : skip_spaces (c ∷ t) ≡ c ∷ t = skip_spaces-word c t space in
    rw (kept, strtol, minus, plus, read, d) (ap (λ m. some (pos m, rest)) bounded)

-- Behind a space, a number stands at the place that `skip_spaces` finds, and `strtol` reads it.
record ReadsNumber (s : Text) (n : ℕ) (rest : Text) : Type 0 where
  skipped : skip_spaces (b' ' ∷ s) ≡ s
  present : not_empty s ≡ some s
  value : strtol s ≡ some (pos n, rest)

ReadsNumber-digit :
    (s : Text) (n : ℕ) (rest : Text)
    → StartsDigit s
    → n ≤ max_long
    → scan_digits 0 s ≡ (n, rest)
    → ReadsNumber s n rest
unfolding skip_spaces
ReadsNumber-digit s n rest (c, t, e, d) small read =
    let space : is_space c ≡ false = ground arith in
    subst (λ u. ReadsNumber u n rest) (sym e)
      (record {
        skipped = skip_spaces-word c t space;
        present = refl;
        value = strtol-digit c t n rest d small (ap (scan_digits 0) (sym e) ∙ read);
      })

decimal-ReadsNumber :
    (n : ℕ) (rest : Text)
    → n ≤ max_long
    → EndsNumber rest
    → ReadsNumber (decimal (pos n) ++ rest) n rest
unfolding decimal
decimal-ReadsNumber n rest small end =
    ReadsNumber-digit (digits (suc n) n ++ rest) n rest
      (digits-StartsDigit (suc n) n rest (omega arith)) small
      (scan_digits-digits (suc n) n rest (omega arith) ∙ scan_digits-end n rest end)

-- A word that neither `strtok_r` nor `isspace` would cut.
abbrev pub IsPlain : Text → Type 0
IsPlain w = (w ≢ []) × All (λ c. is_space c ≡ false) w

span_word-space :
    (w rest : Text)
    → All (λ c. is_space c ≡ false) w
    → span_word (w ++ b' ' ∷ rest) ≡ (w, b' ' ∷ rest)
unfolding span_word
span_word-space [] rest h = refl
span_word-space (c ∷ w) rest h = rw (h.0, span_word-space w rest h.1) refl

skip_spaces-IsPlain : (w rest : Text) → IsPlain w → skip_spaces (w ++ rest) ≡ w ++ rest
skip_spaces-IsPlain [] rest h = absurd (h.0 refl)
skip_spaces-IsPlain (c ∷ w) rest h = skip_spaces-word c (w ++ rest) h.1.0

not_empty-IsPlain : (w rest : Text) → IsPlain w → not_empty (w ++ rest) ≡ some (w ++ rest)
not_empty-IsPlain [] rest h = absurd (h.0 refl)
not_empty-IsPlain (c ∷ w) rest h = refl

to_int-small : (n : ℕ) → n < 2147483648 → to_int (pos n) ≡ pos n
to_int-small n h = ground arith

abbrev pub occurrence : ℤ → ℤ → Text → Occurrence
occurrence i line w = record { file_index = i; line_no = line; word = w }

parse_record_line-parts :
    (line start w behind p endptr q rest : Text) (i l : ℕ)
    → skip_spaces line ≡ start
    → not_empty start ≡ some start
    → span_word start ≡ (w, behind)
    → skip_spaces behind ≡ p
    → not_empty p ≡ some p
    → strtol p ≡ some (pos i, endptr)
    → skip_spaces endptr ≡ q
    → not_empty q ≡ some q
    → strtol q ≡ some (pos l, rest)
    → parse_record_line line ≡ some (occurrence (to_int (pos i)) (to_int (pos l)) w)
unfolding parse_record_line
parse_record_line-parts line start w behind p endptr q rest i l a b c d e f g h k =
    rw (parse_record_line, a, b, c, d, e, f, g, h, k) refl

-- The parent reads what a child printed, if the word has no byte that `isspace` accepts and the numbers
-- fit an `int`.
pub parse_record_line-print_fields :
    (w : Text) (i line : ℕ)
    → IsPlain w
    → i < 2147483648
    → line < 2147483648
    → parse_record_line (print_fields (occurrence (pos i) (pos line) w))
      ≡ some (occurrence (pos i) (pos line) w)
unfolding parse_record_line
parse_record_line-print_fields w i line plain small_i small_line =
    let D = decimal (pos line) in
    let X = decimal (pos i) ++ b' ' ∷ D in
    let first = decimal-ReadsNumber i (b' ' ∷ D) (omega arith) refl in
    let last =
      subst (λ s. ReadsNumber s line []) (append-nil D)
        (decimal-ReadsNumber line [] (omega arith) refl) in
    let read : parse_record_line (w ++ b' ' ∷ X)
        ≡ some (occurrence (to_int (pos i)) (to_int (pos line)) w) =
      parse_record_line-parts (w ++ b' ' ∷ X) (w ++ b' ' ∷ X) w (b' ' ∷ X) X (b' ' ∷ D) D [] i line
        (skip_spaces-IsPlain w (b' ' ∷ X) plain) (not_empty-IsPlain w (b' ' ∷ X) plain)
        (span_word-space w X plain.1) first.skipped first.present first.value last.skipped
        last.present last.value in
    let small : some (occurrence (to_int (pos i)) (to_int (pos line)) w)
        ≡ some (occurrence (pos i) (pos line) w) =
      ap₂ (λ (f l : ℤ). some (occurrence f l w)) (to_int-small i small_i)
        (to_int-small line small_line) in
    read ∙ small
