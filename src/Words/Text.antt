-- ===== src/Words/Text.antt =====
-- What findlwt.c and findlwp.c use of the C library on strings. A string is the list of its bytes
-- without the null byte.
use bilkent_os_projects.Base.{
  ℕ, zero, suc, ◌+◌, ◌-◌, ◌*◌, ◌/◌, ◌%◌, min, Bool, true, false, not, ◌&&◌, ◌||◌, Option, none,
  some, List, [], ◌∷◌, ◌++◌, ◌==◌, ltb, leb, if◌then◌else◌, ℤ, pos, negsuc, minus_one,
}

abbrev pub Text : Type 0
Text = List ℕ

-- The string that starts at the first byte: up to a null byte.
unfoldable pub c_string : Text → Text
c_string [] = []
c_string (c ∷ s) = if c == 0 then [] else c ∷ c_string s

-- `strcmp`, of which the C standard fixes the sign only.
unfoldable pub strcmp : Text → Text → ℤ
strcmp [] [] = pos 0
strcmp [] (d ∷ t) = minus_one
strcmp (c ∷ s) [] = pos 1
strcmp (c ∷ s) (d ∷ t) = if c == d then strcmp s t else if ltb c d then minus_one else pos 1

-- The delimiters " \t\r\n" of `strtok_r`.
abbrev pub is_delimiter : ℕ → Bool
is_delimiter c = c == b' ' || (c == b'\t' || (c == b'\r' || c == b'\n'))

-- `isspace` in the C locale: the delimiters, vertical tab and form feed.
abbrev pub is_space : ℕ → Bool
is_space c = is_delimiter c || (c == 11 || c == 12)

abbrev pub is_digit : ℕ → Bool
is_digit c = leb b'0' c && leb c b'9'

-- A token that is not empty.
abbrev pub token_of : Text → List Text
token_of [] = []
token_of (c ∷ s) = (c ∷ s) ∷ []

-- The loop over `strtok_r`: what was read of a token, and the rest of the string.
unfoldable pub tokens_from : Text → Text → List Text
tokens_from acc [] = token_of acc
tokens_from acc (c ∷ s) =
    let fresh = tokens_from [] s in
    let longer = tokens_from (acc ++ c ∷ []) s in
    if is_delimiter c then token_of acc ++ fresh else longer

-- The loop over `getline`: each line with its newline, the last one perhaps without.
unfoldable pub lines_from : Text → Text → List Text
lines_from acc [] = token_of acc
lines_from acc (c ∷ s) =
    let fresh = lines_from [] s in
    let longer = lines_from (acc ++ c ∷ []) s in
    if c == b'\n' then (acc ++ c ∷ []) ∷ fresh else longer

unfoldable pub skip_spaces : Text → Text
skip_spaces [] = []
skip_spaces (c ∷ s) = if is_space c then skip_spaces s else c ∷ s

-- The bytes before the first space, and the rest.
unfoldable pub span_word : Text → Text × Text
span_word [] = ([], [])
span_word (c ∷ s) =
    let (word, rest) = span_word s in if is_space c then ([], c ∷ s) else (c ∷ word, rest)

-- The value of leading digits behind the value of earlier ones, and the rest.
unfoldable pub scan_digits : ℕ → Text → ℕ × Text
scan_digits n [] = (n, [])
scan_digits n (c ∷ s) =
    let rest = scan_digits (n * 10 + (c - b'0')) s in if is_digit c then rest else (n, c ∷ s)

abbrev pub starts_digit : Text → Bool
starts_digit [] = false
starts_digit (c ∷ s) = is_digit c

-- A `long` is of 64 bits, and `strtol` stays within it.
abbrev pub max_long : ℕ
max_long = 9223372036854775807

abbrev pub negate : ℕ → ℤ
negate zero = pos 0
negate (suc n) = negsuc n

-- Behind spaces and sign: the number and where it ends.
unfoldable pub strtol_digits : Bool → Text → Option (ℤ × Text)
strtol_digits minus s =
    let (n, rest) = scan_digits 0 s in
    if not (starts_digit s)
    then none
    else some (if minus then negate (min n (max_long + 1)) else pos (min n max_long), rest)

-- `strtol(p, &endptr, 10)`; `none` means that `endptr` is `p`.
unfoldable pub strtol : Text → Option (ℤ × Text)
strtol p = elim (skip_spaces p) [
  | [] ↦ none
  | c ∷ s ↦
      if c == b'-'
      then strtol_digits true s
      else if c == b'+'
      then strtol_digits false s
      else strtol_digits false (c ∷ s)
]

-- The conversion of a `long` to an `int`, which keeps the low 32 bits.
abbrev pub int_of_bits : ℕ → ℤ
int_of_bits w = if ltb w 2147483648 then pos w else negsuc (4294967296 - w - 1)

abbrev pub to_int : ℤ → ℤ
to_int (pos n) = int_of_bits (n % 4294967296)
to_int (negsuc n) = int_of_bits (4294967295 - n % 4294967296)

unfoldable pub atoi : Text → ℤ
atoi s = elim (strtol s) [ none ↦ pos 0 | some (n, rest) ↦ to_int n ]

-- `%d` of a number that is not negative. A number has fewer digits than its value, plus one.
unfoldable pub digits : ℕ → ℕ → Text
digits zero n = []
digits (suc fuel) n =
    let front = digits fuel (n / 10) in
    if ltb n 10 then (b'0' + n) ∷ [] else front ++ (b'0' + n % 10) ∷ []

unfoldable pub decimal : ℤ → Text
decimal (pos n) = digits (suc n) n
decimal (negsuc n) = b'-' ∷ digits (suc (suc n)) (suc n)
