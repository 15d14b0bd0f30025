-- ===== src/Base.antt =====
-- The names that the other modules share: the libraries', passed on, and those of the children.
mod Bools
mod Lists
mod CString
mod Decimal
unfoldable pub use Bools.{holds_under}
pub use Bools.{
  ltb, leb, in_range, ◌==◌, if◌then◌else◌, ltb→lt, lt→ltb, leb→le, le→leb, ==_iff, Bool-cases,
  Option-cases, holds_under_sound,
}
pub use Lists.*
unfoldable pub use CString.{c_str, str_eq, strncmp_eq, strstr, before, after, snprintf}
pub use CString.{
  Bytes, codes, str_eq_iff, str_eq_refl, strncmp_eq_refl, strncmp_eq-str_eq, length-c_str-le,
  IsText, c_str-IsText, c_str-fix, snprintf-fits, length-snprintf, strncmp_eq-IsPrefix, IsPrefixOf,
  Contains, strstr_iff,
}
unfoldable pub use Decimal.{decimal, read_decimal}
pub use Decimal.{read_decimal-decimal, length-decimal-le, decimal-pos, decimal-induction}
pub use Prim.Native.Nat.{ℕ, zero, suc, ◌+◌, ◌-◌, ◌*◌, ◌/◌, ◌%◌, ◌^◌, ◌≤◌, ◌<◌, min, bit_and}
pub use Prim.Native.String.{String}
pub use mathlib.Core.Path.{◌≡◌, refl, sym, ap, ◌∙◌, subst}
pub use mathlib.Core.Logic.{◌≢◌, ◌↔◌, ◌⊎◌, inl, inr}
pub use mathlib.Core.Bool.{Bool, true, false, not, ◌&&◌, ◌||◌}
pub use mathlib.Core.Option.{Option, none, some}
pub use mathlib.Core.List.{List, [], ◌∷◌, ◌++◌, map, append_assoc, append-nil}
pub use native.Mathlib.Omega.{arith}
unfoldable pub use native.Mathlib.Decide.{dec_lt}
