-- ===== src/Base.antt =====
-- Names that the other modules share: the libraries', passed on, and those of the three children.
mod Tests
mod Lists
mod Ints
mod Sorting
pub use Tests.{
  ltb, leb, ◌==◌, ◌>>=◌, if◌then◌else◌, ltb→lt, lt→ltb, ==_iff, Bool-cases, Option-cases,
  all_below-true, all_below-intro,
}
unfoldable pub use Tests.{all_below}
pub use Lists.*
pub use Ints.*
pub use Sorting.{
  TotalOrder, insert_comm, insert_all-swap, insert_all-append, Sorted, SortedFrom, insert_all-Perm,
  insert_all-Sorted,
}
unfoldable pub use Sorting.{insert, insert_all}
pub use Prim.Native.Nat.{ℕ, zero, suc, ◌+◌, ◌-◌, ◌*◌, ◌/◌, ◌%◌, ◌^◌, ◌≤◌, ◌<◌, max, min}
pub use mathlib.Core.Path.{◌≡◌, refl, sym, ap, ap₂, ◌∙◌, subst}
pub use mathlib.Core.Logic.{◌≢◌, ◌↔◌, ◌⊎◌, inl, inr}
pub use mathlib.Core.Bool.{Bool, true, false, not, ◌&&◌, ◌||◌}
pub use mathlib.Core.Option.{Option, none, some}
pub use mathlib.Core.List.{List, [], ◌∷◌, ◌++◌, map, append-nil, append_assoc, Perm}
pub use native.Mathlib.Omega.{arith}

-- The value -1, by which every part of the program reports failure.
abbrev pub minus_one : ℤ
minus_one = negsuc 0
