-- ===== src/Base.antt =====
-- The names that all modules share: the libraries', passed on, and those of the children.
pub mod Tests
pub mod Text
pub mod Strings
pub mod Time
pub mod Errors
pub mod Table
pub mod Counts
pub mod Lists
pub mod Members
pub use Tests.*
pub use Text.*
pub use Lists.*
pub use Counts.*
pub use Members.*
pub use Errors.*
unfoldable pub use Strings.{
  contains, concat, is_blank, rune_count, is_identifier_char, all_chars, is_identifier, decimals,
  starts_with, digit, byte_count, has_part, ends_with, trim_space, is_space, trim_start, trim_end,
  cut, trim_prefix, take_chars,
}
pub use Time.{Clock}
unfoldable pub use Time.{second, format, format_nano, now}
unfoldable pub use Table.{
  length, find_row, count_rows, select_rows, update_rows, delete_rows, upsert_row, insert_ignore,
  has_row,
}
pub use Prim.Native.Nat.{ℕ, zero, suc, ◌+◌, ◌-◌, ◌*◌, ◌/◌, ◌%◌, ◌^◌, ◌≤◌, ◌<◌}
pub use Prim.Native.String.{String}
pub use mathlib.Core.Path.{◌≡◌, refl, sym, ap, ◌∙◌, subst}
pub use mathlib.Core.Logic.{◌≢◌, ◌↔◌, ◌⊎◌, inl, inr}
pub use mathlib.Core.Bool.{Bool, true, false, ◌&&◌, ◌||◌, not}
pub use mathlib.Core.Option.{Option, none, some}
pub use mathlib.Core.List.{List, [], ◌∷◌, ◌++◌, map}
pub use native.Mathlib.Omega.{arith}
pub use text.Mathlib.Text.{◌==◌ as str_eq}
pub use text.Mathlib.TextEquality.{eq_iff}
pub use text.Mathlib.TextPositions.{eq_refl}
