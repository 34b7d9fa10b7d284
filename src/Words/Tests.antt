-- ===== src/Words/Tests.antt =====
-- findlwt.c and findlwp.c on small files.
use bilkent_os_projects.Base.{
  false, Perm, ◌+◌, ◌≤◌, ℕ, ◌≡◌, refl, subst, true, Option, none, some, List, [], ◌∷◌, pos, All,
  if◌then◌else◌, zero, suc, replicate, Bool-cases, inl, inr, length, ◌<◌, arith,
}
use bilkent_os_projects.Words.Processes.{new_pipe}
use bilkent_os_projects.Words.Processes.Arrival.{stream_records, collect-streams}
use bilkent_os_projects.Words.Pipe.Reader.{Pipe, collect, receive}
use bilkent_os_projects.Words.Occurrence.{Occurrence, OccurrenceVec, empty}
use bilkent_os_projects.Words.Sort.{qsort}
use bilkent_os_projects.Words.Report.{groups}
use bilkent_os_projects.Words.Report.Groups.{ungroup, IsUniform, IsAscending, groups-qsort}
use bilkent_os_projects.Words.Record.{print_fields, parse_record_line}
use bilkent_os_projects.Words.Record.RoundTrip.{occurrence, parse_record_line-print_fields}
use bilkent_os_projects.Words.Pipe.{Sent}
use bilkent_os_projects.Words.Pipe.Writing.{IsSent, write_to_parent_lem}
use bilkent_os_projects.Words.Pipe.Capacity.{receive_fits}
use bilkent_os_projects.Words.Scan.{scan_file}
use bilkent_os_projects.Words.Scan.Laws.{IsFound, scan_file-IsFound}
use bilkent_os_projects.Words.Text.{
  Text, strcmp, atoi, lines_from, strtol, skip_spaces, strtol_digits, scan_digits, decimal, digits,
  tokens_from, c_string,
}
use bilkent_os_projects.Words.Occurrence.{is_zero, occ_push}
use bilkent_os_projects.Words.Scan.{System, make_input_filename, scan_lines, push_tokens}
use bilkent_os_projects.Words.Pipe.{
  child_process, send_records, write_to_parent, WriteResult, wrote, write_interrupted,
}
use bilkent_os_projects.Words.Pipe.Reader.{
  SelectResult, ready, select_interrupted, read_bytes, read_interrupted,
}
use bilkent_os_projects.Words.Pipe.Delivery.{
  Delivers, complete, round, retry, nothing, one, gone, part, over, again,
}
use bilkent_os_projects.Words.Pipe.Writing.{print_records, NoFailure}
use bilkent_os_projects.Words.Record.{print_record}
use bilkent_os_projects.Words.Same.{found, AllReady, IsPlainByte}
use bilkent_os_projects.Words.Same.Output.{find_lwp-find_lwt}
use bilkent_os_projects.Words.Threads.{find_lwt}
use bilkent_os_projects.Words.Processes.{find_lwp, child_streams}

-- "b a\na"
abbrev file_text : Text
file_text = b'b' ∷ b' ' ∷ b'a' ∷ b'\n' ∷ b'a' ∷ []

-- "f1", the only file that opens
abbrev first_name : Text
first_name = b'f' ∷ b'1' ∷ []

abbrev input : Text → Option Text
input name = if is_zero (strcmp name first_name) then some file_text else none

abbrev system : System
system = record { input = input; starts = λ i. true; writable = λ name. true }

abbrev run_lwt : ℕ × Option Text
run_lwt = find_lwt system ((b't' ∷ []) ∷ (b'f' ∷ []) ∷ (b'2' ∷ []) ∷ (b'1' ∷ []) ∷ (b'o' ∷ []) ∷ [])

-- "b 1 1\na 1 1\na 1 2\n"
abbrev first_stream : Text
first_stream =
    b'b' ∷ b' ' ∷ b'1' ∷ b' ' ∷ b'1' ∷ b'\n' ∷ b'a' ∷ b' ' ∷ b'1' ∷ b' ' ∷ b'1' ∷ b'\n' ∷ b'a'
    ∷ b' ' ∷ b'1' ∷ b' ' ∷ b'2' ∷ b'\n' ∷ []

-- The writes of a child: of more bytes than `write` was asked for it takes what it was asked for.
abbrev writes : ℕ → List WriteResult
writes i = write_interrupted ∷ replicate 18 (wrote 1)

abbrev reads : List SelectResult
reads =
    ready (some (read_bytes (b'b' ∷ b' ' ∷ b'1' ∷ b' ' ∷ b'1' ∷ [])) ∷ some (read_bytes []) ∷ [])
    ∷ select_interrupted
    ∷ ready (some (read_bytes (b'\n' ∷ b'a' ∷ b' ' ∷ b'1' ∷ b' ' ∷ [])) ∷ none ∷ [])
    ∷ ready (some read_interrupted ∷ none ∷ [])
    ∷ ready (some (read_bytes (b'1' ∷ b'\n' ∷ b'a' ∷ b' ' ∷ b'1' ∷ [])) ∷ none ∷ [])
    ∷ ready (some (read_bytes (b' ' ∷ b'2' ∷ b'\n' ∷ [])) ∷ none ∷ [])
    ∷ ready (some (read_bytes []) ∷ none ∷ [])
    ∷ []

reads-Delivers : Delivers 5 (some first_stream ∷ some [] ∷ []) reads
reads-Delivers =
    round
      (one
        (part b'b' (b' ' ∷ b'1' ∷ b' ' ∷ b'1' ∷ [])
          (b'\n' ∷ b'a' ∷ b' ' ∷ b'1' ∷ b' ' ∷ b'1' ∷ b'\n' ∷ b'a' ∷ b' ' ∷ b'1' ∷ b' ' ∷ b'2'
            ∷ b'\n' ∷ [])
          (omega arith))
        (one over nothing))
      (retry (
        round
          (one
            (part b'\n' (b'a' ∷ b' ' ∷ b'1' ∷ b' ' ∷ [])
              (b'1' ∷ b'\n' ∷ b'a' ∷ b' ' ∷ b'1' ∷ b' ' ∷ b'2' ∷ b'\n' ∷ []) (omega arith))
            (one gone nothing))
          (round
            (one (again (b'1' ∷ b'\n' ∷ b'a' ∷ b' ' ∷ b'1' ∷ b' ' ∷ b'2' ∷ b'\n' ∷ []))
              (one gone nothing))
            (round
              (one
                (part b'1' (b'\n' ∷ b'a' ∷ b' ' ∷ b'1' ∷ []) (b' ' ∷ b'2' ∷ b'\n' ∷ [])
                  (omega arith))
                (one gone nothing))
              (round (one (part b' ' (b'2' ∷ b'\n' ∷ []) ([]) (omega arith)) (one gone nothing))
                (round (one over (one gone nothing)) (complete tt)))))))

file_text-IsPlain : All IsPlainByte file_text × (length (lines_from [] file_text) < 2147483648)
unfolding lines_from
file_text-IsPlain = (
  (
    ((λ e. omega arith), λ e. omega arith),
    (
      ((λ e. omega arith), λ e. omega arith),
      (
        ((λ e. omega arith), λ e. omega arith),
        (((λ e. omega arith), λ e. omega arith), (((λ e. omega arith), λ e. omega arith), tt)),
      ),
    ),
  ),
  omega arith,
)

input-IsPlain :
    (name c : Text)
    → input name ≡ some c
    → All IsPlainByte c × (length (lines_from [] c) < 2147483648)
input-IsPlain name c e = elim (Bool-cases (is_zero (strcmp name first_name))) [
  | inl t ↦
      let same : file_text ≡ c = cc in
      subst (λ d. All IsPlainByte d × (length (lines_from [] d) < 2147483648)) same
        file_text-IsPlain
  | inr t ↦ cc
]

writes-NoFailure : (n : ℕ) → NoFailure (replicate n (wrote 1))
writes-NoFailure zero = tt
writes-NoFailure (suc n) = ((λ e. cc), writes-NoFailure n)

system-AllReady : AllReady system (b'f' ∷ []) (pos 1) writes 0 2
unfolding make_input_filename decimal digits found print_records print_record scan_lines push_tokens
    tokens_from lines_from c_string occ_push strcmp
system-AllReady = (
  record {
    starts = refl;
    name = first_name;
    named = refl;
    plain = λ c e. (input-IsPlain first_name c e).0;
    short = λ c e. (input-IsPlain first_name c e).1;
    safe = ((λ e. cc), writes-NoFailure 18);
    enough = omega arith;
  },
  (
    record {
      starts = refl;
      name = b'f' ∷ b'2' ∷ [];
      named = refl;
      plain = λ c e. (input-IsPlain (b'f' ∷ b'2' ∷ []) c e).0;
      short = λ c e. (input-IsPlain (b'f' ∷ b'2' ∷ []) c e).1;
      safe = ((λ e. cc), writes-NoFailure 18);
      enough = omega arith;
    },
    tt,
  ),
)

system-sends : child_streams system (b'f' ∷ []) (pos 1) 5 0 2 writes ≡ some (first_stream ∷ [] ∷ [])
unfolding child_streams child_process send_records write_to_parent print_record make_input_filename
    decimal digits scan_lines push_tokens tokens_from lines_from c_string occ_push strcmp
system-sends = refl

find_lwp-find_lwt_example :
    find_lwp system
      ((b'p' ∷ []) ∷ (b'f' ∷ []) ∷ (b'2' ∷ []) ∷ (b'1' ∷ []) ∷ (b'5' ∷ []) ∷ (b'o' ∷ []) ∷ [])
      reads
    ≡ some
        (find_lwt system ((b't' ∷ []) ∷ (b'f' ∷ []) ∷ (b'2' ∷ []) ∷ (b'1' ∷ []) ∷ (b'o' ∷ []) ∷ []))
unfolding atoi strtol skip_spaces strtol_digits scan_digits
find_lwp-find_lwt_example =
    find_lwp-find_lwt system (b't' ∷ []) (b'p' ∷ []) (b'f' ∷ []) (b'2' ∷ []) (b'1' ∷ []) (b'5' ∷ [])
      (b'o' ∷ []) writes (first_stream ∷ [] ∷ []) reads refl system-AllReady system-sends
      reads-Delivers

collect-streams_example :
    (all : OccurrenceVec) × (collect empty (replicate 2 new_pipe) reads ≡ some all)
    × Perm all.items (stream_records (first_stream ∷ [] ∷ []))
collect-streams_example = collect-streams 5 (first_stream ∷ [] ∷ []) reads reads-Delivers

-- Two words of three lines.
abbrev some_records : List Occurrence
some_records =
    occurrence (pos 2) (pos 1) (b'b' ∷ [])
    ∷ occurrence (pos 1) (pos 3) (b'a' ∷ b'b' ∷ [])
    ∷ occurrence (pos 1) (pos 2) (b'b' ∷ [])
    ∷ []

groups-qsort_example :
    (ungroup (groups (qsort some_records)) ≡ qsort some_records)
    × Perm (qsort some_records) some_records
    × All IsUniform (groups (qsort some_records))
    × IsAscending (groups (qsort some_records))
groups-qsort_example = groups-qsort some_records

parse_record_line-print_fields_example :
    parse_record_line (print_fields (occurrence (pos 10) (pos 207) (b'a' ∷ b'b' ∷ [])))
    ≡ some (occurrence (pos 10) (pos 207) (b'a' ∷ b'b' ∷ []))
parse_record_line-print_fields_example =
    parse_record_line-print_fields (b'a' ∷ b'b' ∷ []) 10 207 ((λ e. cc), (refl, (refl, tt)))
      (omega arith) (omega arith)

write_to_parent_lem_example :
    (sent : Sent) × (write_to_parent 5 file_text (writes 1) ≡ some sent)
    × IsSent file_text (writes 1) sent
write_to_parent_lem_example =
    write_to_parent_lem 5 file_text (writes 1) (omega arith) ((λ e. cc), writes-NoFailure 18)
      (omega arith)

abbrev small_pipe : Pipe
small_pipe = record { buffer = b'b' ∷ b' ' ∷ []; cap = 1024; closed = false }

receive_fits_example :
    let q = (receive empty small_pipe (read_bytes (b'1' ∷ b' ' ∷ []))).1 in
    (length small_pipe.buffer + 2 + 1 ≤ q.cap)
    × (small_pipe.cap ≤ q.cap)
    × (length q.buffer + 1 ≤ q.cap)
receive_fits_example = receive_fits empty small_pipe b'1' (b' ' ∷ [])

scan_file-IsFound_example :
    All
      (IsFound IsPlainByte (pos 1) 3 (length (lines_from [] file_text)))
      (scan_file (pos 1) 3 file_text).items
scan_file-IsFound_example = scan_file-IsFound IsPlainByte (pos 1) 3 file_text file_text-IsPlain.0
