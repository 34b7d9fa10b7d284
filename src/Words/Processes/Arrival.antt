-- ===== src/Words/Processes/Arrival.antt =====
-- What the parent of findlwp.c has of whole streams.
use bilkent_os_projects.Base.{
  ◌≡◌, refl, sym, ap, ◌∙◌, subst, some, List, [], ◌∷◌, ◌++◌, map, length, replicate, insert_all,
  Perm, ℕ,
}
use mathlib.Core.List.Perm
use bilkent_os_projects.Words.Text.{Text}
use bilkent_os_projects.Words.Occurrence.{Occurrence, OccurrenceVec, empty}
use bilkent_os_projects.Words.Sort.{qsort, qsort-Perm}
use bilkent_os_projects.Words.Pipe.Reader.{SelectResult, collect}
use bilkent_os_projects.Words.Pipe.Delivery.{Delivers, AllFit, all_pending, records_from}
use bilkent_os_projects.Words.Pipe.Collect.{collect-Delivers}
use bilkent_os_projects.Words.Processes.{new_pipe}

-- The records of the complete lines of all streams, one stream after the other.
abbrev pub stream_records : List Text → List Occurrence
stream_records [] = []
stream_records (s ∷ ss) = records_from [] s ++ stream_records ss

new_pipes-AllFit :
    (streams : List Text)
    → AllFit (replicate (length streams) new_pipe) (map some streams)
      × (all_pending (replicate (length streams) new_pipe) (map some streams)
          ≡ stream_records streams)
new_pipes-AllFit [] = (tt, refl)
new_pipes-AllFit (s ∷ ss) =
    let (fit, same) = new_pipes-AllFit ss in
    (((refl, tt), fit), ap (λ l. records_from [] s ++ l) same)

-- If the system delivers the streams to their ends, in any pieces of at most `chunk` bytes and in any
-- order, with any interruptions, the parent's loop ends, and it has exactly the records of the complete
-- lines of the streams, up to their order.
pub collect-streams :
    (chunk : ℕ) (streams : List Text) (answers : List SelectResult)
    → Delivers chunk (map some streams) answers
    → (all : OccurrenceVec) × (collect empty (replicate (length streams) new_pipe) answers
        ≡ some all)
      × Perm all.items (stream_records streams)
unfolding insert_all
collect-streams chunk streams answers d =
    let (fit, same) = new_pipes-AllFit streams in
    let (w, e, sorted) = collect-Delivers empty (replicate (length streams) new_pipe) d fit in
    let sorted_same : qsort w.items ≡ qsort (stream_records streams) = sorted ∙ ap qsort same in
    (
      w,
      e,
      Perm.trans (Perm.symm (qsort-Perm w.items)) (
          subst (λ l. Perm l (stream_records streams)) (sym sorted_same)
            (qsort-Perm (stream_records streams))),
    )
