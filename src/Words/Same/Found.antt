-- ===== src/Words/Same/Found.antt =====
-- What the threads of findlwt.c leave, and what the children of findlwp.c send, of the records of the
-- input files.
use bilkent_os_projects.Base.{
  ℕ, zero, suc, ◌+◌, ◌<◌, ◌≡◌, ◌≢◌, refl, sym, ap, ◌∙◌, subst, true, false, none, some, List, [],
  ◌∷◌, length, arith, All, All-map, All-append, ℤ, Option-cases, inl, inr, if◌then◌else◌,
}
use bilkent_os_projects.Words.Text.{Text, lines_from, is_space}
use bilkent_os_projects.Words.Occurrence.{Occurrence, OccurrenceVec, empty, push_occurrences}
use bilkent_os_projects.Words.Scan.{System, make_input_filename, scan_file}
use bilkent_os_projects.Words.Scan.Laws.{IsFound, IsWordByte, scan_file-IsFound}
use bilkent_os_projects.Words.Threads.{ThreadResult, worker, run_workers, merge}
use bilkent_os_projects.Words.Pipe.{WriteResult, send_records, child_process}
use bilkent_os_projects.Words.Pipe.Writing.{print_records, send_records_lem}
use bilkent_os_projects.Words.Pipe.Lines.{push_occurrences-append}
use bilkent_os_projects.Words.Pipe.Records.{IsSendable}
use bilkent_os_projects.Words.Processes.{child_streams, all_start}
use bilkent_os_projects.Words.Same.{found, all_found, IsPlainByte, IsReady, AllReady}

module _ (sys : System) (prefix : Text) (k : ℤ) (i : ℕ) (name : Text) where
  found-closed :
      make_input_filename prefix i ≡ some name → sys.input name ≡ none → found sys prefix k i ≡ []
  unfolding found
  found-closed e f = rw (found, e, f) refl

  found-open :
      (contents : Text)
      → make_input_filename prefix i ≡ some name
      → sys.input name ≡ some contents
      → found sys prefix k i ≡ (scan_file k i contents).items
  unfolding found
  found-open contents e f = rw (found, e, f) refl

-- The result of a thread: what `merge` takes from it are the records of its file.
worker_lem :
    (sys : System) (prefix : Text) (k : ℤ) (i : ℕ) (name : Text)
    → make_input_filename prefix i ≡ some name
    → (r : ThreadResult) × (worker sys prefix k i ≡ some r)
      × ((v : OccurrenceVec)
          → (if r.ok then push_occurrences v r.found.items else v)
            ≡ push_occurrences v (found sys prefix k i))
unfolding worker found push_occurrences
worker_lem sys prefix k i name e = elim (Option-cases (sys.input name)) [
  | inl f ↦
      (record { ok = false; found = empty }, rw (worker, e, f) refl, λ v. rw (found, e, f) refl)
  | inr (contents, f) ↦ (
    record { ok = true; found = scan_file k i contents },
    rw (worker, e, f) refl,
    λ v. rw (found, e, f) refl,
  )
]

pub run_workers_lem :
    (sys : System) (prefix : Text) (k : ℤ) (writes : ℕ → List WriteResult) (i n : ℕ)
    → AllReady sys prefix k writes i n
    → (rs : List ThreadResult) × (run_workers sys prefix k i n ≡ some rs)
      × ((v : OccurrenceVec) → merge v rs ≡ push_occurrences v (all_found sys prefix k i n))
unfolding run_workers merge all_found push_occurrences
run_workers_lem sys prefix k writes i zero h = ([], refl, λ v. refl)
run_workers_lem sys prefix k writes i (suc n) h =
    let (r, e, one) = worker_lem sys prefix k (suc i) h.0.name h.0.named in
    let (rs, f, more) = run_workers_lem sys prefix k writes (suc i) n h.1 in
    (
      r ∷ rs,
      rw (h.0.starts, e, f) refl,
      λ v.
          ap (λ u. merge u rs) (one v)
          ∙ more (push_occurrences v (found sys prefix k (suc i)))
          ∙ sym (
              push_occurrences-append v (found sys prefix k (suc i))
                (all_found sys prefix k (suc i) n)),
    )

-- A child sends the records of its file.
child_process_lem :
    (sys : System) (prefix : Text) (k : ℤ) (writes : ℕ → List WriteResult) (data_length i : ℕ)
    → 0 < data_length
    → IsReady sys prefix k writes i
    → child_process sys prefix k i data_length (writes i)
      ≡ some (print_records (found sys prefix k i))
unfolding child_process print_records
child_process_lem sys prefix k writes d i h r =
    let sent = send_records_lem d (found sys prefix k i) (writes i) h r.safe r.enough in
    let name = r.name in
    let e : make_input_filename prefix i ≡ some name = r.named in
    elim (Option-cases (sys.input name)) [
      | inl f ↦
          let none_found = found-closed sys prefix k i name e f in
          rw (child_process, e, f, none_found) refl
      | inr (contents, f) ↦
          let all = found-open sys prefix k i name contents e f in
          let sends : child_process sys prefix k i d (writes i)
              ≡ send_records d (scan_file k i contents).items (writes i) =
            rw (child_process, e, f) refl in
          sends ∙ ap (λ os. send_records d os (writes i)) (sym all) ∙ sent
    ]

-- What the children `i + 1` to `i + n` send.
unfoldable pub sent_streams : System → Text → ℤ → ℕ → ℕ → List Text
sent_streams sys prefix k i zero = []
sent_streams sys prefix k i (suc n) =
    print_records (found sys prefix k (suc i)) ∷ sent_streams sys prefix k (suc i) n

pub child_streams_lem :
    (sys : System) (prefix : Text) (k : ℤ) (writes : ℕ → List WriteResult) (data_length i n : ℕ)
    → 0 < data_length
    → AllReady sys prefix k writes i n
    → child_streams sys prefix k data_length i n writes ≡ some (sent_streams sys prefix k i n)
unfolding child_streams sent_streams
child_streams_lem sys prefix k writes d i zero h r = refl
child_streams_lem sys prefix k writes d i (suc n) h r =
    rw
      (
        child_process_lem sys prefix k writes d (suc i) h r.0,
        child_streams_lem sys prefix k writes d (suc i) n h r.1,
      )
      refl

pub all_start_lem :
    (sys : System) (prefix : Text) (k : ℤ) (writes : ℕ → List WriteResult) (i n : ℕ)
    → AllReady sys prefix k writes i n
    → all_start sys i n ≡ true
unfolding all_start
all_start_lem sys prefix k writes i zero h = refl
all_start_lem sys prefix k writes i (suc n) h =
    rw (h.0.starts) (all_start_lem sys prefix k writes (suc i) n h.1)

-- The records of a file that is ready can be sent.
IsFound→IsSendable :
    (k : ℤ) (i n : ℕ) (o : Occurrence)
    → (i < 2147483648) × (n < 2147483648)
    → IsFound IsPlainByte k i n o
    → IsSendable o
IsFound→IsSendable k i n o small f = record {
  plain = (
    f.is_word.0,
    All-map (IsWordByte IsPlainByte) (λ c. is_space c ≡ false) o.word (λ c b. ground arith)
        f.is_word.1,
  );
  no_null = All-map (IsWordByte IsPlainByte) (λ c. c ≢ 0) o.word (λ c b. b.0) f.is_word.1;
  file = i;
  line = f.line;
  of_file = f.of_file;
  of_line = f.of_line;
  small = (small.0, (let (low, high) = f.in_file in omega arith));
}

pub found-IsSendable :
    (sys : System) (prefix : Text) (k : ℤ) (writes : ℕ → List WriteResult) (i : ℕ)
    → i < 2147483648
    → IsReady sys prefix k writes i
    → All IsSendable (found sys prefix k i)
found-IsSendable sys prefix k writes i small r = elim (Option-cases (sys.input r.name)) [
  | inl f ↦ subst (All IsSendable) (sym (found-closed sys prefix k i r.name r.named f)) tt
  | inr (contents, f) ↦
      let n = length (lines_from [] contents) in
      let read = scan_file-IsFound IsPlainByte k i contents (r.plain contents f) in
      subst (All IsSendable) (sym (found-open sys prefix k i r.name contents r.named f)) (
        All-map (IsFound IsPlainByte k i n) IsSendable (scan_file k i contents).items
          (λ o g. IsFound→IsSendable k i n o (small, r.short contents f) g) read)
]

pub all_found-IsSendable :
    (sys : System) (prefix : Text) (k : ℤ) (writes : ℕ → List WriteResult) (i n : ℕ)
    → i + n < 2147483648
    → AllReady sys prefix k writes i n
    → All IsSendable (all_found sys prefix k i n)
unfolding all_found
all_found-IsSendable sys prefix k writes i zero small r = tt
all_found-IsSendable sys prefix k writes i (suc n) small r =
    All-append IsSendable (found sys prefix k (suc i)) (all_found sys prefix k (suc i) n)
      (found-IsSendable sys prefix k writes (suc i) (omega arith) r.0)
      (all_found-IsSendable sys prefix k writes (suc i) n (omega arith) r.1)
