-- ===== src/Words/Pipe/Complete.antt =====
-- The parent of findlwp.c gets every record that the children send, however the system cuts and orders
-- the reads.
use bilkent_os_projects.Base.{
  ℕ, suc, ◌+◌, ◌≡◌, refl, sym, ap, ap₂, ◌∙◌, false, Option, none, some, List, [], ◌∷◌, ◌++◌, length,
  append-nil, arith, subst, if◌then◌else◌, insert_all, insert_all-append,
}
use bilkent_os_projects.Words.Text.{Text}
use bilkent_os_projects.Words.Occurrence.{Occurrence, OccurrenceVec, push_occurrences}
use bilkent_os_projects.Words.Sort.{not_above, insert_all-arrivals}
use bilkent_os_projects.Words.Pipe.Reader.{
  Pipe, ReadResult, read_bytes, read_interrupted, take_lines, close, grow, receive, serve_pipe,
  serve, open_pipes,
}
use bilkent_os_projects.Words.Pipe.Delivery.{
  records_from, rest_from, Answers, gone, silent, part, over, again, ReadRound, nothing, one,
  AllGone, Fits, AllFit, pending, all_pending, NoNewline,
}
use bilkent_os_projects.Words.Pipe.Lines.{
  items-push_occurrences, take_lines_lem, records_from-append, rest_from-NoNewline,
  records_from-kept,
}

-- What one pipe gives to the records: those that came, before those that are still to come.
record Served (v : OccurrenceVec) (result : OccurrenceVec × Pipe) (before : List Occurrence)
    (t : Option Text) : Type 0 where
  new : List Occurrence
  items : result.0.items ≡ v.items ++ new
  split : before ≡ new ++ pending result.1 t
  fits : Fits result.1 t

read_more : OccurrenceVec → Pipe → Text → OccurrenceVec × Pipe
read_more v p s = (
  push_occurrences v (records_from p.buffer s),
  record {
    buffer = rest_from p.buffer s;
    cap = grow p.cap (length p.buffer + length s + 1);
    closed = p.closed;
  },
)

receive-part :
    (v : OccurrenceVec) (p : Pipe) (c : ℕ) (s : Text)
    → NoNewline p.buffer
    → receive v p (read_bytes (c ∷ s)) ≡ read_more v p (c ∷ s)
unfolding receive read_more
receive-part v p c s h =
    let kept = records_from-kept [] p.buffer (c ∷ s) h in
    let taken : take_lines v [] (p.buffer ++ c ∷ s)
        ≡ (push_occurrences v (records_from p.buffer (c ∷ s)), rest_from p.buffer (c ∷ s)) =
      take_lines_lem v [] (p.buffer ++ c ∷ s)
      ∙ ap₂ (λ (os : List Occurrence) (r : Text). (push_occurrences v os, r)) kept.0 kept.1 in
    ap
      (λ (x : OccurrenceVec × Text). (
        x.0,
        record {
          buffer = x.1;
          cap = grow p.cap (length p.buffer + length (c ∷ s) + 1);
          closed = p.closed;
        },
      ))
      taken

serve_pipe-open :
    (v : OccurrenceVec) (p : Pipe) (r : ReadResult)
    → p.closed ≡ false
    → serve_pipe v p (some r) ≡ receive v p r
unfolding serve_pipe
serve_pipe-open v p r live = ap (λ b. if b then (v, p) else receive v p r) live

Served-same :
    (v : OccurrenceVec) (p : Pipe) (s : Option Text) → Fits p s → Served v (v, p) (pending p s) s
Served-same v p s f = record { new = []; items = sym (append-nil v.items); split = refl; fits = f }

Served-close : (v : OccurrenceVec) (p : Pipe) → Served v (v, close p) (pending p (some [])) none
unfolding records_from
Served-close v p = record { new = []; items = sym (append-nil v.items); split = refl; fits = refl }

Served-part :
    (v : OccurrenceVec) (p : Pipe) (s t : Text)
    → Fits p (some (s ++ t))
    → Served v (read_more v p s) (pending p (some (s ++ t))) (some t)
unfolding read_more
Served-part v p s t f = record {
  new = records_from p.buffer s;
  items = items-push_occurrences v (records_from p.buffer s);
  split = records_from-append p.buffer s t;
  fits = (f.0, rest_from-NoNewline p.buffer s f.1);
}

serve_pipe-Answers :
    {chunk : ℕ} {s t : Option Text} {r : Option ReadResult} (v : OccurrenceVec) (p : Pipe)
    → Answers chunk s r t
    → Fits p s
    → Served v (serve_pipe v p r) (pending p s) t
unfolding serve_pipe receive
serve_pipe-Answers v p gone f = Served-same v p none f
serve_pipe-Answers v p (silent s) f = Served-same v p (some s) f
serve_pipe-Answers v p (again s) f =
    subst (λ x. Served v x (pending p (some s)) (some s))
      (sym (serve_pipe-open v p read_interrupted f.0)) (Served-same v p (some s) f)
serve_pipe-Answers v p over f =
    subst (λ x. Served v x (pending p (some [])) none)
      (sym (serve_pipe-open v p (read_bytes []) f.0)) (Served-close v p)
serve_pipe-Answers v p (part c s t short) f =
    subst (λ x. Served v x (pending p (some (c ∷ s ++ t))) (some t))
      (sym (serve_pipe-open v p (read_bytes (c ∷ s)) f.0 ∙ receive-part v p c s f.1))
      (Served-part v p (c ∷ s) t f)

-- What is still to come counts as if it had come.
abbrev pub in_order : OccurrenceVec → List Pipe → List (Option Text) → List Occurrence
in_order v ps ss = insert_all not_above v.items (insert_all not_above (all_pending ps ss) [])

reorder :
    (items new before after rest : List Occurrence) (v : OccurrenceVec)
    → v.items ≡ items ++ new
    → before ≡ new ++ after
    → insert_all not_above after (insert_all not_above v.items rest)
      ≡ insert_all not_above items (insert_all not_above before rest)
reorder items new before after rest v e f =
    let I = insert_all not_above in
    insert_all-arrivals after v.items rest
    ∙ ap₂ (λ xs ys. I xs ys) e refl
    ∙ insert_all-append not_above items new (I after rest)
    ∙ ap (I items) (sym (insert_all-append not_above new after rest))
    ∙ ap (λ xs. I items (I xs rest)) (sym f)

pub serve-ReadRound :
    {chunk : ℕ} {ss ts : List (Option Text)} {rs : List (Option ReadResult)} (v : OccurrenceVec)
    (ps : List Pipe)
    → ReadRound chunk ss rs ts
    → AllFit ps ss
    → AllFit (serve v ps rs).1 ts
      × (in_order (serve v ps rs).0 (serve v ps rs).1 ts ≡ in_order v ps ss)
unfolding serve
serve-ReadRound v [] nothing f = (tt, refl)
serve-ReadRound v [] (one a r) f = elim f [ ]
serve-ReadRound v (p ∷ ps) nothing f = elim f [ ]
serve-ReadRound v (p ∷ ps) (one {s} {t} {r} {ss} {ts} {rs} a more) f =
    let now = serve_pipe-Answers v p a f.0 in
    let I = insert_all not_above in
    let u = (serve_pipe v p r).0 in
    let q = (serve_pipe v p r).1 in
    let (fit, same) = serve-ReadRound u ps more f.1 in
    let all = (serve u ps rs).0 in
    let qs = (serve u ps rs).1 in
    (
      (now.fits, fit),
      ap (I all.items) (insert_all-append not_above (pending q t) (all_pending qs ts) [])
          ∙ insert_all-arrivals all.items (pending q t) (I (all_pending qs ts) [])
          ∙ ap (I (pending q t)) same
          ∙ reorder v.items now.new (pending p s) (pending q t) (I (all_pending ps ss) []) u
              now.items now.split
          ∙ ap (I v.items) (sym (insert_all-append not_above (pending p s) (all_pending ps ss) [])),
    )

-- The loop ends when the last stream is closed, and not before.
pub open_pipes-AllGone :
    (ps : List Pipe) (ss : List (Option Text)) → AllFit ps ss → AllGone ss → open_pipes ps ≡ 0
unfolding open_pipes
open_pipes-AllGone [] [] f g = refl
open_pipes-AllGone (p ∷ ps) (none ∷ ss) f g =
    ap (λ b. if b then open_pipes ps else suc (open_pipes ps)) f.0 ∙ open_pipes-AllGone ps ss f.1 g
open_pipes-AllGone [] (s ∷ ss) f g = elim f [ ]
open_pipes-AllGone (p ∷ ps) [] f g = elim f [ ]
open_pipes-AllGone (p ∷ ps) (some s ∷ ss) f g = elim g [ ]

pub all_pending-open_pipes :
    (ps : List Pipe) (ss : List (Option Text))
    → AllFit ps ss
    → open_pipes ps ≡ 0
    → all_pending ps ss ≡ []
unfolding open_pipes
all_pending-open_pipes [] [] f g = refl
all_pending-open_pipes (p ∷ ps) (none ∷ ss) f g =
    all_pending-open_pipes ps ss f.1
      (ap (λ b. if b then open_pipes ps else suc (open_pipes ps)) (sym f.0) ∙ g)
all_pending-open_pipes (p ∷ ps) (some s ∷ ss) f g =
    let e = ap (λ b. if b then open_pipes ps else suc (open_pipes ps)) (sym f.0.0) ∙ g in
    absurd (omega (arith, e))
all_pending-open_pipes [] (s ∷ ss) f g = elim f [ ]
all_pending-open_pipes (p ∷ ps) [] f g = elim f [ ]
