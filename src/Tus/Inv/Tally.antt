-- ===== src/Tus/Inv/Tally.antt =====
-- Counting over the thread table of Project2/tus.c.
use bilkent_os_projects.Base.{
  ℕ, zero, suc, ◌+◌, ◌≤◌, ◌≡◌, refl, ap, Option, none, some, [], ◌∷◌, length, get_elem?, arith, ◌⊎◌,
  inl, inr,
}
use bilkent_os_projects.Tus.State.{Tcb, Table, modify}
use bilkent_os_projects.Tus.Inv.{tally}

pub tally-modify :
    (g : Option Tcb → ℕ) (ts : Table) (i : ℕ) (c : Tcb) (f : Tcb → Tcb)
    → get_elem? ts i ≡ some (some c)
    → tally g (modify ts i f) + g (some c) ≡ tally g ts + g (some (f c))
tally-modify g [] i c f h = cc
tally-modify g (none ∷ ts) zero c f h = cc
tally-modify g (some d ∷ ts) zero c f h = let e : d ≡ c = cc in rw e (omega arith)
tally-modify g (none ∷ ts) (suc i) c f h = omega (arith, tally-modify g ts i c f h)
tally-modify g (some d ∷ ts) (suc i) c f h = omega (arith, tally-modify g ts i c f h)

pub get_elem?-modify :
    (ts : Table) (i : ℕ) (c : Tcb) (f : Tcb → Tcb)
    → get_elem? ts i ≡ some (some c)
    → get_elem? (modify ts i f) i ≡ some (some (f c))
get_elem?-modify [] i c f h = cc
get_elem?-modify (none ∷ ts) zero c f h = cc
get_elem?-modify (some d ∷ ts) zero c f h = let e : d ≡ c = cc in rw e
get_elem?-modify (none ∷ ts) (suc i) c f h = get_elem?-modify ts i c f h
get_elem?-modify (some d ∷ ts) (suc i) c f h = get_elem?-modify ts i c f h

pub length-modify : (ts : Table) (i : ℕ) (f : Tcb → Tcb) → length (modify ts i f) ≡ length ts
length-modify [] i f = refl
length-modify (none ∷ ts) zero f = refl
length-modify (some d ∷ ts) zero f = refl
length-modify (none ∷ ts) (suc i) f = ap suc (length-modify ts i f)
length-modify (some d ∷ ts) (suc i) f = ap suc (length-modify ts i f)

-- An entry counts for no more than the whole.
pub le-tally :
    (g : Option Tcb → ℕ) (ts : Table) (i : ℕ) (o : Option Tcb)
    → get_elem? ts i ≡ some o
    → g o ≤ tally g ts
le-tally g [] i o h = cc
le-tally g (x ∷ ts) zero o h = let e : x ≡ o = cc in rw e (omega arith)
le-tally g (x ∷ ts) (suc i) o h = omega (arith, le-tally g ts i o h)

pub tally_mono :
    (g h : Option Tcb → ℕ) (ts : Table) → ((o : Option Tcb) → g o ≤ h o) → tally g ts ≤ tally h ts
tally_mono g h [] le = omega arith
tally_mono g h (x ∷ ts) le = omega (arith, le x, tally_mono g h ts le)

-- Apart from one entry, what counts less entry by entry counts less.
pub tally-others :
    (g h : Option Tcb → ℕ) (ts : Table) (i : ℕ) (o : Option Tcb)
    → ((x : Option Tcb) → g x ≤ h x)
    → get_elem? ts i ≡ some o
    → tally g ts + h o ≤ tally h ts + g o
tally-others g h [] i o le e = cc
tally-others g h (x ∷ ts) zero o le e =
    let same : x ≡ o = cc in rw same (omega (arith, tally_mono g h ts le))
tally-others g h (x ∷ ts) (suc i) o le e = omega (arith, le x, tally-others g h ts i o le e)

-- Two kinds of entries that exclude each other.
pub tally-disjoint :
    (g h : Option Tcb → ℕ) (ts : Table)
    → ((x : Option Tcb) → g x + h x ≤ 1)
    → tally g ts + tally h ts ≤ length ts
tally-disjoint g h [] le = omega arith
tally-disjoint g h (x ∷ ts) le = omega (arith, le x, tally-disjoint g h ts le)

-- Two writes through the same pointer are one.
pub modify-modify :
    (ts : Table) (i : ℕ) (f g : Tcb → Tcb) → modify (modify ts i f) i g ≡ modify ts i (λ c. g (f c))
modify-modify [] i f g = refl
modify-modify (none ∷ ts) zero f g = refl
modify-modify (some d ∷ ts) zero f g = refl
modify-modify (none ∷ ts) (suc i) f g = ap (◌∷◌ none) (modify-modify ts i f g)
modify-modify (some d ∷ ts) (suc i) f g = ap (◌∷◌ (some d)) (modify-modify ts i f g)

-- What stands in a slot, it or what was written over it stands there after a write.
pub modify-cases :
    (ts : Table) (i j : ℕ) (d : Tcb) (f : Tcb → Tcb)
    → get_elem? ts j ≡ some (some d)
    → (get_elem? (modify ts i f) j ≡ some (some d))
      ⊎ (get_elem? (modify ts i f) j ≡ some (some (f d)))
modify-cases [] i j d f h = cc
modify-cases (none ∷ ts) zero j d f h = inl h
modify-cases (some x ∷ ts) zero zero d f h = let e : x ≡ d = cc in inr (rw e refl)
modify-cases (some x ∷ ts) zero (suc j) d f h = inl h
modify-cases (none ∷ ts) (suc i) zero d f h = inl h
modify-cases (some x ∷ ts) (suc i) zero d f h = inl h
modify-cases (none ∷ ts) (suc i) (suc j) d f h = modify-cases ts i j d f h
modify-cases (some x ∷ ts) (suc i) (suc j) d f h = modify-cases ts i j d f h

-- Two kinds of entries that a third covers.
pub tally-two :
    (g h k : Option Tcb → ℕ) (ts : Table)
    → ((x : Option Tcb) → g x + h x ≤ k x)
    → tally g ts + tally h ts ≤ tally k ts
tally-two g h k [] le = omega arith
tally-two g h k (x ∷ ts) le = omega (arith, le x, tally-two g h k ts le)
