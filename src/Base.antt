-- ===== src/Base.antt =====
-- Shared names of the development: the libraries' names passed on, Boolean tests, lists, signed
-- integers, texts, results and the rule sets. Models no code of its own.
mod Tests
mod Lists
mod Perms
mod Results
mod Texts
mod Int
pub use Tests.*
pub use Lists.*
pub use Perms.*
pub use Results.*
pub use Texts.*
pub use Int.*
pub use Texts.Decimal.{from_str_unsigned-le, from_str_unsigned-display}
unfoldable pub use Lists.{mem, filter_by, take_rows, drop_rows}
unfoldable pub use Int.{◌-ℤ◌, to_i64, pattern_of, wrap_i64}
unfoldable pub use Texts.{is_blank, from_str, from_str_unsigned, display}
pub use Prim.Native.Nat.{ℕ, zero, suc, ◌+◌, ◌-◌, ◌*◌, ◌/◌, ◌%◌, ◌^◌, ◌≤◌, ◌<◌, min}
pub use Prim.Native.String.{String}
pub use mathlib.Core.Path.{◌≡◌, refl, sym, ap, subst, ◌∙◌}
pub use mathlib.Core.Logic.{◌≢◌, ◌↔◌, ◌⊎◌, inl, inr}
pub use mathlib.Core.Bool.{Bool, true, false, not, ◌&&◌, ◌||◌}
pub use mathlib.Core.Option.{Option, none, some}
pub use mathlib.Core.List.{List, [], ◌∷◌, ◌++◌, map, append_assoc, append-nil}
pub use native.Mathlib.Omega.{arith}
pub use text.Mathlib.Text.{◌==◌ as str_eq}
pub use text.Mathlib.TextEquality.{eq_iff}
unfoldable pub use mathlib.Core.List.{flatten}
