-- ===== src/Prelude.antt =====
-- Names that every module shares: those of the libraries, passed on, and those of the children
-- (Boolean tests, lists measured by native numbers, texts as code points, signed numbers).
mod Tests
mod Lists
mod Strings
mod Int
mod Results
pub use Tests.*
unfoldable pub use Lists.{any, all, keep, first}
pub use Lists.*
unfoldable pub use Int.{◌+ℤ◌, ◌-ℤ◌, float_limit}
pub use Int.*
unfoldable pub use Results.{traverse}
pub use Results.*
unfoldable pub use Strings.{
  lit, ◌==◌, text_ltb, contains, lower, upper, strip, starts_with, is_space, nonblank, lstrip,
  rstrip, split_on, replace_char, span_until, words, join,
}
pub use Strings.{Text, codes, ==_iff, contains-Memb, Memb-contains, ==_refl, ==-false}
pub use Prim.Native.Nat.{ℕ, zero, suc, ◌+◌, ◌-◌, ◌*◌, ◌/◌, ◌%◌, ◌^◌, ◌≤◌, ◌<◌}
pub use Prim.Native.String.{String}
pub use mathlib.Core.Path.{◌≡◌, refl, sym, ap, ◌∙◌, subst}
pub use mathlib.Core.Logic.{◌≢◌, ◌↔◌, ◌⊎◌, inl, inr}
pub use mathlib.Core.Bool.{Bool, true, false, not, ◌&&◌, ◌||◌}
pub use mathlib.Core.Option.{Option, none, some}
pub use mathlib.Core.List.{List, [], ◌∷◌, ◌++◌, map}
pub use native.Mathlib.Omega.{arith}
