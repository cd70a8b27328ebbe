-- ===== src/Base.antt =====
-- The names that the components share: the libraries', passed on, and those of the children.
mod Tests
mod Lists
mod Strings
mod TextLaws
pub use Tests.*
pub use Lists.*
unfoldable pub use Lists.{
  select, find_first, any, all, count, update_where, insert_by, sort_by, first_some, filter_map,
}
pub use Strings.*
pub use TextLaws.*
unfoldable pub use Strings.{
  same, rune_len, byte_len, is_space, trim_left, keep_before, trim_right, trim, trim_space,
  has_prefix, strip, or_else, trim_prefix, before, contains, contains_rune, replace_rune,
  lower_rune, upper_rune, to_lower, to_upper, text_leb, nocase, equal_fold, trim_suffix_rune,
  cons_head, split,
}
pub use Prim.Native.Nat.{ℕ, zero, suc, ◌+◌, ◌-◌, ◌*◌, ◌/◌, ◌%◌, ◌^◌, ◌≤◌, ◌<◌, min, max}
pub use mathlib.Core.Path.{◌≡◌, refl, sym, ap, ◌∙◌, subst}
pub use mathlib.Core.Logic.{◌≢◌, ◌↔◌, ◌⊎◌, inl, inr}
pub use mathlib.Core.Bool.{Bool, true, false, not, ◌&&◌, ◌||◌}
pub use mathlib.Core.Option.{Option, none, some}
pub use mathlib.Core.List.{List, [], ◌∷◌, ◌++◌, append_assoc, append-nil}
unfoldable pub use mathlib.Core.List.{map}
pub use native.Mathlib.Omega.{arith}
