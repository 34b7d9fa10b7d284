-- ===== src/Rsm/Reduce.antt =====
-- The reduction loop that Project3/rsm.c runs twice: in `is_safe` (lines 167-192) with the needs
-- of the processes, and in `rsm_detection` (lines 605-629) with their pending requests.
-- Children: `Step` (the abstract relation), `Loop` (what the loop does), `Order` (no order of
-- completion gets further), `Simulate` (a second system that follows a first one), `Late` (a
-- process that completes last), `Alike` (lists of jobs that agree, or differ in one place).
pub mod Step
pub mod Loop
pub mod Order
pub mod Simulate
pub mod Late
pub mod Alike
use bilkent_os_projects.Base.{
  ℕ, zero, suc, ◌+◌, Bool, true, false, not, ◌&&◌, ◌||◌, List, [], ◌∷◌, leb, if◌then◌else◌,
  all_below,
}

-- A row of `int`s, one for each resource type. Only the first `resource_count` entries are used.
abbrev pub Vec : Type 0
Vec = ℕ → ℕ

-- What a loop reads of a process: the row that must fit, the row it gives back, and finish[i].
pub record Job : Type 0 where
  pub want : Vec
  pub gain : Vec
  pub finish : Bool

abbrev pub done : Job → Job
done k = record k { finish = true }

-- The inner loop `for (j ...) if (u[j] > v[j]) { can = 0; break; }`.
unfoldable pub fits : ℕ → Vec → Vec → Bool
unfolding all_below
fits r u v = all_below r (λ j. leb (u j) (v j))

abbrev pub add_row : Vec → Vec → Vec
add_row u v = λ j. u j + v j

pub record Round : Type 0 where
  pub jobs : List Job
  pub work : Vec
  pub found : Bool

-- The test under which process i completes in this round.
unfoldable pub ready : ℕ → Job → Vec → Bool
ready r k w = not k.finish && fits r k.want w

-- One pass of `for (i = 0; i < process_count; ++i)`.
unfoldable pub round : ℕ → List Job → Vec → Round
round r [] w = record { jobs = []; work = w; found = false }
round r (k ∷ ks) w =
    let t = ready r k w in
    let rest = round r ks (if t then add_row w k.gain else w) in
    record {
      jobs = (if t then done k else k) ∷ rest.jobs;
      work = rest.work;
      found = t || rest.found;
    }

-- `do { ... } while (found)` on fuel; `Loop.reduce-Stuck` shows that one round more than there are
-- processes is enough.
unfoldable pub reduce : ℕ → ℕ → List Job → Vec → List Job × Vec
reduce zero r ks w = (ks, w)
reduce (suc fuel) r ks w =
    let p = round r ks w in
    elim p.found [ true ↦ reduce fuel r p.jobs p.work | false ↦ (p.jobs, p.work) ]

-- `for (i ...) if (!finish[i]) return 0; return 1;`
unfoldable pub all_finished : List Job → Bool
all_finished [] = true
all_finished (k ∷ ks) = k.finish && all_finished ks

-- `for (i ...) if (!finish[i]) ++deadlocked;`
unfoldable pub unfinished : List Job → ℕ
unfinished [] = 0
unfinished (k ∷ ks) = (if k.finish then 0 else 1) + unfinished ks
