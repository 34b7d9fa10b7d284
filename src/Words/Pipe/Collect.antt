-- ===== src/Words/Pipe/Collect.antt =====
-- The loop of the parent of findlwp.c, from the empty buffers on.
use bilkent_os_projects.Base.{
  ℕ, ◌≡◌, refl, sym, ap, ◌∙◌, true, Option, some, List, [], arith, ◌==◌, Bool-cases, inl, inr,
  insert_all,
}
use bilkent_os_projects.Words.Text.{Text}
use bilkent_os_projects.Words.Occurrence.{OccurrenceVec}
use bilkent_os_projects.Words.Sort.{not_above, qsort}
use bilkent_os_projects.Words.Pipe.Reader.{Pipe, SelectResult, serve, open_pipes, collect}
use bilkent_os_projects.Words.Pipe.Delivery.{Delivers, complete, round, retry, AllFit}
use bilkent_os_projects.Words.Pipe.Complete.{
  in_order, serve-ReadRound, open_pipes-AllGone, all_pending-open_pipes,
}

-- The result of the loop: the records, in the order of `qsort`, are those that had come and those
-- that were still to come.
abbrev pub Collects : OccurrenceVec → List Pipe → List (Option Text) → List SelectResult → Type 0
Collects v ps ss answers =
    (w : OccurrenceVec) × (collect v ps answers ≡ some w) × (qsort w.items ≡ in_order v ps ss)

Collects-ended :
    (v : OccurrenceVec) (ps : List Pipe) (ss : List (Option Text))
    → AllFit ps ss
    → open_pipes ps ≡ 0
    → qsort v.items ≡ in_order v ps ss
unfolding insert_all
Collects-ended v ps ss f e =
    ap (λ l. insert_all not_above v.items (insert_all not_above l []))
      (sym (all_pending-open_pipes ps ss f e))

pub collect-Delivers :
    {chunk : ℕ} {ss : List (Option Text)} {answers : List SelectResult} (v : OccurrenceVec)
    (ps : List Pipe)
    → Delivers chunk ss answers
    → AllFit ps ss
    → Collects v ps ss answers
unfolding collect
collect-Delivers v ps (complete {ss} g) f =
    let e = open_pipes-AllGone ps ss f g in
    let test : (open_pipes ps == 0) ≡ true = ground arith in
    (v, rw test refl, Collects-ended v ps ss f e)
collect-Delivers v ps (round {ss} {ts} {rs} {answers} r d) f =
    let (fit, same) = serve-ReadRound v ps r f in
    let (w, e, sorted) = collect-Delivers (serve v ps rs).0 (serve v ps rs).1 d fit in
    elim (Bool-cases (open_pipes ps == 0)) [
      | inl t ↦ (v, rw t refl, Collects-ended v ps ss f (ground arith))
      | inr t ↦ (w, rw t e, sorted ∙ same)
    ]
collect-Delivers v ps (retry {ss} {answers} d) f =
    let (w, e, sorted) = collect-Delivers v ps d f in
    elim (Bool-cases (open_pipes ps == 0)) [
      | inl t ↦ (v, rw t refl, Collects-ended v ps ss f (ground arith))
      | inr t ↦ (w, rw t e, sorted)
    ]
