-- ===== src/Base.antt =====
-- The names that the other modules share: the libraries', passed on, and those of the children.
mod Tests
mod Lists
mod Sorting
mod Texts
mod Show
mod Separators
pub mod Dict
mod DistinctKeys
pub use DistinctKeys.*
pub use Tests.*
pub use Lists.*
unfoldable pub use Sorting.{insert_sorted, sort_by}
pub use Sorting.{
  any-sort_by, Sorted, sort_by-Sorted, length-sort_by, All-insert_sorted, All-sort_by, All-take,
}
unfoldable pub use Texts.{
  is_whitespace, text_discrete, lit, trim_start, trim, is_empty, starts_with, words,
}
pub use Texts.{
  StartVisible, EndVisible, EndVisible-tail, trim-StartVisible, trim-EndVisible, trim-same,
  trim-visible, trim-All, Text, text_eq_iff, text_eq_refl, ◌==◌,
}
unfoldable pub use Show.{show, show_i64}
pub use Show.{show-Lacks_low, show-not_empty, show-injective, show_i64-Lacks, show_i64-injective}
pub use Separators.*
pub use Prim.Native.Nat.{ℕ, zero, suc, ◌+◌, ◌-◌, ◌*◌, ◌/◌, ◌%◌, ◌^◌, ◌≤◌, ◌<◌}
pub use mathlib.Core.Path.{◌≡◌, refl, sym, ap, subst, ◌∙◌}
pub use mathlib.Core.Logic.{◌≢◌, ◌↔◌, ◌⊎◌, inl, inr}
pub use mathlib.Core.Bool.{Bool, true, false, not, ◌&&◌, ◌||◌}
pub use mathlib.Core.Option.{Option, none, some}
pub use mathlib.Core.List.{List, [], ◌∷◌, ◌++◌, map}
pub use native.Mathlib.Omega.{arith}
