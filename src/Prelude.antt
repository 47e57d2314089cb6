-- ===== src/Prelude.antt =====
-- The names that the other modules share: those of the libraries, passed on, and those of the
-- children: Boolean tests, lists measured by native numbers, texts as lists of bytes.
mod Booleans
mod Lists
mod Texts
pub mod Int
pub mod Assoc
pub mod Outcome
pub use Booleans.*
pub use Lists.*
unfoldable pub use Texts.{text_eq, has_prefix, ends_with, join, concat, one_of}
pub use Texts.{
  Text, codes, text_eq_iff, text_eq_refl, text_eq_ne, has_prefix-append, is_empty, is_empty_iff,
}
pub use Prim.Native.Nat.{ℕ, zero, suc, ◌+◌, ◌-◌, ◌*◌, ◌/◌, ◌%◌, ◌^◌, ◌≤◌, ◌<◌, max}
pub use Prim.Native.String.{String}
pub use mathlib.Core.Path.{◌≡◌, refl, sym, ap, ◌∙◌}
pub use mathlib.Core.Logic.{◌≢◌, ◌↔◌, ◌⊎◌, inl, inr}
pub use mathlib.Core.Bool.{Bool, true, false, not, ◌&&◌, ◌||◌}
pub use mathlib.Core.Option.{Option, none, some}
pub use mathlib.Core.List.{List, [], ◌∷◌, ◌++◌, map, append_assoc, append-nil}
pub use native.Mathlib.Omega.{arith}
