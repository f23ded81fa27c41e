-- ===== src/Base.antt =====
-- The names that the other modules share: the libraries', passed on, and those of the children.
-- Python's built-in numbers, texts and lists as the modelled code uses them.
pub mod Tests
pub mod Lists
pub mod Strings
pub mod Int
pub mod Newest
pub use Tests.*
pub use Lists.*
unfoldable pub use Strings.{
  Text, lit, text_eq, member, starts_with, strip, rstrip_newlines, lower, split_on, join_with,
  is_space, strip_by, ends_with, contains, split_lines_keep, split_lines, concat, partition,
}
pub use Strings.Laws.{
  text_eq_refl, text_eq_comm, eq_of_text_eq, text_eq_iff, concat-split_lines_keep, Without,
  split_on-join_with, All-split_on, split_on-append, split_on_single, member_of_Has, AreDistinct,
  AreDistinct-append, split_lines-nil,
}
pub use Prim.Native.Nat.{ℕ, zero, suc, ◌+◌, ◌-◌, ◌*◌, ◌≤◌, ◌<◌}
pub use Prim.Native.String.{String}
pub use mathlib.Core.Path.{◌≡◌, refl, sym, ap, ◌∙◌}
pub use mathlib.Core.Logic.{◌≢◌, ◌↔◌, ◌⊎◌, inl, inr}
pub use mathlib.Core.Bool.{Bool, true, false, ◌&&◌, ◌||◌, not}
pub use mathlib.Core.Option.{Option, none, some}
pub use mathlib.Core.List.{List, [], ◌∷◌, ◌++◌, map, map-append, append-nil, append_assoc}
pub use native.Mathlib.Omega.{arith}
