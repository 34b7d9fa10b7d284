-- ===== src/Words/Scan/Laws.antt =====
-- What the records are that findlwt.c and findlwp.c take from one input file.
use bilkent_os_projects.Base.{
  ◌≡◌, refl, inl, inr, ◌≢◌, List, [], ◌∷◌, ◌++◌, All, All-snoc, All-append, ◌<◌, arith, pos,
  Bool-cases, true, false, ℕ, ◌+◌, ◌≤◌, suc, length, ℤ, ◌==◌,
}
use bilkent_os_projects.Words.Text.{
  Text, c_string, tokens_from, is_delimiter, token_of, lines_from, to_int,
}
use bilkent_os_projects.Words.Occurrence.{Occurrence, occ_push, OccurrenceVec, empty}
use bilkent_os_projects.Words.Scan.{scan_lines, push_tokens, scan_file, at_least}

-- A token: not empty, without delimiters and null bytes, of bytes with `P`.
module _ (P : ℕ → Type 0) where
  abbrev pub IsWordByte : ℕ → Type 0
  IsWordByte c = (c ≢ 0) × (is_delimiter c ≡ false) × P c

  abbrev pub IsWord : Text → Type 0
  IsWord w = (w ≢ []) × All IsWordByte w

  c_string-All : (s : Text) → All P s → All (λ c. (c ≢ 0) × P c) (c_string s)
  unfolding c_string
  c_string-All [] h = tt
  c_string-All (c ∷ s) h = elim (Bool-cases (c == 0)) [
    | inl e ↦ rw e tt
    | inr e ↦ rw e ((ground arith, h.0), c_string-All s h.1)
  ]

  token_of-IsWord : (acc : Text) → All IsWordByte acc → All IsWord (token_of acc)
  token_of-IsWord [] h = tt
  token_of-IsWord (c ∷ acc) h = ((λ e. grind arith, h), tt)

  tokens_from-IsWord :
      (acc s : Text)
      → All IsWordByte acc
      → All (λ c. (c ≢ 0) × P c) s
      → All IsWord (tokens_from acc s)
  unfolding tokens_from
  tokens_from-IsWord acc [] h k = token_of-IsWord acc h
  tokens_from-IsWord acc (c ∷ s) h k = elim (Bool-cases (is_delimiter c)) [
    | inl e ↦ rw e (
        All-append IsWord (token_of acc) (tokens_from [] s) (token_of-IsWord acc h)
          (tokens_from-IsWord [] s tt k.1))
    | inr e ↦
        rw e
          (tokens_from-IsWord (acc ++ c ∷ []) s (All-snoc IsWordByte acc c h (k.0.0, e, k.0.1)) k.1)
  ]

  lines_from-All : (acc s : Text) → All P acc → All P s → All (All P) (lines_from acc s)
  unfolding lines_from
  lines_from-All [] [] h k = tt
  lines_from-All (d ∷ acc) [] h k = (h, tt)
  lines_from-All acc (c ∷ s) h k = elim (Bool-cases (c == b'\n')) [
    | inl e ↦ rw e (All-snoc P acc c h k.0, lines_from-All [] s tt k.1)
    | inr e ↦ rw e (lines_from-All (acc ++ c ∷ []) s (All-snoc P acc c h k.0) k.1)
  ]

  -- A record of file `i`, from one of `n` lines, with a word of at least `k` bytes.
  pub record IsFound (k : ℤ) (i n : ℕ) (o : Occurrence) : Type 0 where
    pub line : ℕ
    pub of_file : o.file_index ≡ pos i
    pub of_line : o.line_no ≡ pos line
    pub in_file : (0 < line) × (line ≤ n)
    pub is_word : IsWord o.word
    pub long : at_least (to_int (pos (length o.word))) k ≡ true

  push_tokens-IsFound :
      (v : OccurrenceVec) (k : ℤ) (i line n : ℕ) (ts : List Text)
      → 0 < line
      → line ≤ n
      → All (IsFound k i n) v.items
      → All IsWord ts
      → All (IsFound k i n) (push_tokens v k i line ts).items
  unfolding push_tokens occ_push
  push_tokens-IsFound v k i line n [] p q h w = h
  push_tokens-IsFound v k i line n (t ∷ ts) p q h w =
      let o : Occurrence = record { file_index = pos i; line_no = pos line; word = t } in
      elim (Bool-cases (at_least (to_int (pos (length t))) k)) [
        | inl e ↦
            rw (e, push_tokens)
              (push_tokens-IsFound (occ_push v o) k i line n ts p q
                (All-snoc (IsFound k i n) v.items o h (record {
                  line = line;
                  of_file = refl;
                  of_line = refl;
                  in_file = (p, q);
                  is_word = w.0;
                  long = e;
                }))
                w.1)
        | inr e ↦ rw (e, push_tokens) (push_tokens-IsFound v k i line n ts p q h w.1)
      ]

  scan_lines-IsFound :
      (v : OccurrenceVec) (k : ℤ) (i line n : ℕ) (ls : List Text)
      → line + length ls ≤ n
      → All (IsFound k i n) v.items
      → All (All P) ls
      → All (IsFound k i n) (scan_lines v k i line ls).items
  unfolding scan_lines
  scan_lines-IsFound v k i line n [] p h w = h
  scan_lines-IsFound v k i line n (l ∷ ls) p h w =
      let words = tokens_from-IsWord [] (c_string l) tt (c_string-All l w.0) in
      let now =
        push_tokens-IsFound v k i (suc line) n (tokens_from [] (c_string l)) (omega arith)
          (omega arith) h words in
      scan_lines-IsFound (push_tokens v k i (suc line) (tokens_from [] (c_string l))) k i (suc line)
        n ls (omega arith) now w.1

  -- Each record of a scanned file has its index, the number of one of its lines and a token that is
  -- long enough and made of the file's bytes.
  pub scan_file-IsFound :
      (k : ℤ) (i : ℕ) (contents : Text)
      → All P contents
      → All (IsFound k i (length (lines_from [] contents))) (scan_file k i contents).items
  scan_file-IsFound k i contents h =
      let n = length (lines_from [] contents) in
      scan_lines-IsFound empty k i 0 n (lines_from [] contents) (omega arith) tt
        (lines_from-All [] contents tt h)
