-- ===== src/Words/Same/Output.antt =====
-- findlwt.c and findlwp.c write the same file.
use bilkent_os_projects.Base.{
  ℕ, zero, suc, ◌+◌, ◌<◌, ◌≤◌, ◌≡◌, refl, sym, ap, ap₂, ◌∙◌, subst, true, Option, none, some, List,
  [], ◌∷◌, ◌++◌, length, arith, ℤ, pos, negsuc, pos_part, Bool-cases, inl, inr, if◌then◌else◌, map,
  replicate, ltb, min, insert_all, insert,
}
use bilkent_os_projects.Words.Text.{Text, atoi}
use bilkent_os_projects.Words.Occurrence.{Occurrence, OccurrenceVec, empty}
use bilkent_os_projects.Words.Sort.{qsort}
use bilkent_os_projects.Words.Report.{report}
use bilkent_os_projects.Words.Scan.{System, in_range}
use bilkent_os_projects.Words.Threads.{merge, sort_all, find_words, find_lwt}
use bilkent_os_projects.Words.Pipe.{WriteResult}
use bilkent_os_projects.Words.Pipe.Reader.{SelectResult}
use bilkent_os_projects.Words.Pipe.Delivery.{Delivers, AllFit, all_pending}
use bilkent_os_projects.Words.Pipe.Lines.{items-push_occurrences}
use bilkent_os_projects.Words.Pipe.Collect.{collect-Delivers}
use bilkent_os_projects.Words.Pipe.Records.{records_from-print_records}
use bilkent_os_projects.Words.Processes.{new_pipe, child_streams, gather_words, find_lwp}
use bilkent_os_projects.Words.Same.{found, all_found, AllReady}
use bilkent_os_projects.Words.Same.Found.{
  run_workers_lem, sent_streams, child_streams_lem, all_start_lem, found-IsSendable,
}

-- A list of one record or none is sorted.
sort_all_lem : (os : List Occurrence) → sort_all os ≡ qsort os
unfolding insert_all insert
sort_all_lem [] = refl
sort_all_lem (o ∷ []) = refl
sort_all_lem (o ∷ p ∷ os) =
    let test : ltb 1 (length (o ∷ p ∷ os)) ≡ true = ground arith in rw test refl

-- The file that both programs write.
abbrev output : System → Text → List Occurrence → ℕ × Option Text
output sys out os = if sys.writable out then (0, some (report (qsort os))) else (1, none)

find_words_lem :
    (sys : System) (prefix : Text) (n k : ℤ) (out : Text) (writes : ℕ → List WriteResult)
    → AllReady sys prefix k writes 0 (pos_part n)
    → find_words sys prefix n k out ≡ output sys out (all_found sys prefix k 0 (pos_part n))
unfolding find_words
find_words_lem sys prefix n k out writes h =
    let os = all_found sys prefix k 0 (pos_part n) in
    let (rs, e, merged) = run_workers_lem sys prefix k writes 0 (pos_part n) h in
    let items : (merge empty rs).items ≡ os =
      ap (λ (v : OccurrenceVec). v.items) (merged empty) ∙ items-push_occurrences empty os in
    let write : List Occurrence → ℕ × Option Text =
      λ l. if sys.writable out then (0, some (report l)) else (1, none) in
    rw (find_words, e) (ap write (sort_all_lem (merge empty rs).items ∙ ap qsort items))

-- The pipes before the first call of `select`.
new_pipes_lem :
    (sys : System) (prefix : Text) (k : ℤ) (writes : ℕ → List WriteResult) (i n : ℕ)
    → i + n < 2147483648
    → AllReady sys prefix k writes i n
    → AllFit (replicate n new_pipe) (map some (sent_streams sys prefix k i n))
      × (all_pending (replicate n new_pipe) (map some (sent_streams sys prefix k i n))
          ≡ all_found sys prefix k i n)
unfolding sent_streams all_found
new_pipes_lem sys prefix k writes i zero small h = (tt, refl)
new_pipes_lem sys prefix k writes i (suc n) small h =
    let (fit, same) = new_pipes_lem sys prefix k writes (suc i) n (omega arith) h.1 in
    let one = found-IsSendable sys prefix k writes (suc i) (omega arith) h.0 in
    (
      ((refl, tt), fit),
      ap₂ (λ xs ys. xs ++ ys) (records_from-print_records (found sys prefix k (suc i)) one) same,
    )

gather_words_lem :
    {chunk : ℕ} {answers : List SelectResult} (sys : System) (prefix : Text) (k : ℤ) (n : ℕ)
    (out : Text) (writes : ℕ → List WriteResult)
    → n < 2147483648
    → AllReady sys prefix k writes 0 n
    → Delivers chunk (map some (sent_streams sys prefix k 0 n)) answers
    → gather_words sys n out answers ≡ some (output sys out (all_found sys prefix k 0 n))
unfolding gather_words insert_all
gather_words_lem {answers = answers} sys prefix k n out writes small h d =
    let (fit, pending) = new_pipes_lem sys prefix k writes 0 n (omega arith) h in
    let (w, e, sorted) = collect-Delivers empty (replicate n new_pipe) d fit in
    let starts = all_start_lem sys prefix k writes 0 n h in
    let write : List Occurrence → ℕ × Option Text =
      λ l. if sys.writable out then (0, some (report l)) else (1, none) in
    rw (gather_words, starts, e)
      (ap (λ l. some (write l)) (sort_all_lem w.items ∙ sorted ∙ ap qsort pending))

in_range-bounds :
    (a : ℤ) (low high : ℕ) → in_range a low high ≡ true → (low ≤ pos_part a) × (pos_part a ≤ high)
in_range-bounds (pos n) low high h = ground arith
in_range-bounds (negsuc n) low high h = cc

-- findlwp.c writes the same file as findlwt.c, with the same exit status, for every data length from 1 to
-- 1000 and every way in which the system splits and interrupts the writes of the children and orders,
-- splits and interrupts the reads of the parent, if it delivers the streams to their ends; if the
-- threads, pipes and children can be made, the file names fit, no call of `write` or `read` fails, and
-- the input files have no vertical tab or form feed and fewer than 2^31 lines each.
pub find_lwp-find_lwt :
    (sys : System) (lwt lwp prefix n k data_length out : Text) (writes : ℕ → List WriteResult)
    (streams : List Text) (answers : List SelectResult)
    → in_range (atoi data_length) 1 1000 ≡ true
    → AllReady sys prefix (atoi k) writes 0 (pos_part (atoi n))
    → child_streams sys prefix (atoi k) (pos_part (atoi data_length)) 0 (pos_part (atoi n)) writes
      ≡ some streams
    → Delivers (min (pos_part (atoi data_length)) 1024) (map some streams) answers
    → find_lwp sys (lwp ∷ prefix ∷ n ∷ k ∷ data_length ∷ out ∷ []) answers
      ≡ some (find_lwt sys (lwt ∷ prefix ∷ n ∷ k ∷ out ∷ []))
unfolding find_lwp find_lwt
find_lwp-find_lwt sys lwt lwp prefix n k data_length out writes streams answers valid h sends d =
    elim (Bool-cases (in_range (atoi n) 1 10)) [
      | inr bad_n ↦ rw bad_n refl
      | inl good_n ↦ elim (Bool-cases (in_range (atoi k) 1 100)) [
        | inr bad_k ↦ rw (good_n, bad_k) refl
        | inl good_k ↦
            let N = pos_part (atoi n) in
            let few = in_range-bounds (atoi n) 1 10 good_n in
            let long = in_range-bounds (atoi data_length) 1 1000 valid in
            let sent =
              child_streams_lem sys prefix (atoi k) writes (pos_part (atoi data_length)) 0 N
                (omega arith) h in
            let same : streams ≡ sent_streams sys prefix (atoi k) 0 N = cc in
            rw (good_n, good_k, valid)
              (gather_words_lem sys prefix (atoi k) N out writes (omega arith) h (
                  subst
                    (λ ss. Delivers (min (pos_part (atoi data_length)) 1024) (map some ss) answers)
                    same d)
                ∙ ap some (sym (find_words_lem sys prefix (atoi n) (atoi k) out writes h)))
      ]
    ]
