-- ===== src/Prelude.antt =====
-- The names that the other modules share: the libraries', passed on, and those of the children.
mod Tests
mod Lists
mod Rows
mod Int
mod First
mod Sort
mod Texts
mod Decimal
mod Top
mod Member
pub use Int.{ℤ, pos, negsuc, ltb_ℤ}
pub use First.{
  first_by, max_by, first_by-mem, first_by-least, first_by-none, max_by-greatest, max_by-append,
  max_by-none, max_by-snoc, max_by-select,
}
pub use Sort.{any-sort_by}
unfoldable pub use Decimal.{decimal, digits}
pub use Decimal.{decimal_inj}
pub use Texts.{
  trim_prefix, trim_prefix-append, before_suffix-append, before_suffix_lem, or_text, is_some,
  has_suffix-append, trim_suffix-append, cut-append, trim-append, trim_right-append,
}
pub use Texts.{is_slash, slash, slash-append}
unfoldable pub use Texts.{before_suffix, has_suffix, trim_suffix, trim, trim_right, cut, has_slash}
pub use Top.{
  length-take_le, take-all, mem-take, length-sort_with, All-sort_with, mem-sort_with, Descending,
  sort_desc-Descending, take-Descending, take-ahead,
}
unfoldable pub use Sort.{sort_with, sort_by, sort_desc}
pub use Tests.*
pub use Lists.*
pub use Rows.*
pub use Member.*
pub use Prim.Native.Nat.{ℕ, zero, suc, ◌+◌, ◌-◌, ◌≤◌, ◌<◌}
pub use Prim.Native.String.{String}
pub use mathlib.Core.Path.{◌≡◌, refl, sym, ap, ◌∙◌, subst}
pub use mathlib.Core.Logic.{◌≢◌, ◌↔◌, ◌⊎◌, inl, inr}
pub use mathlib.Core.Bool.{Bool, true, false, ◌&&◌, ◌||◌, not}
pub use mathlib.Core.Option.{Option, none, some}
pub use mathlib.Core.List.{List, [], ◌∷◌, ◌++◌, map, Memᴰ}
pub use native.Mathlib.Omega.{arith}
pub use text.Mathlib.Text.{◌==◌}
pub use text.Mathlib.TextEquality.{eq_iff}
pub use text.Mathlib.TextPositions.{eq_refl}
