-- ===== src/Base.antt =====
-- What the other modules share: the libraries' names, tests on numbers and texts, Go's maps with
-- string keys, the results of fallible calls and the state monad of code that calls lvm.
mod Tests
mod Texts
pub mod StringMap
pub mod Exec
pub mod Keeps
pub mod Integers
pub use Tests.*
unfoldable pub use Texts.{cat, cut_prefix, cut_suffix, has_prefix, contains}
pub use Texts.{cut_prefix-cat, cut_prefix-some}
pub use Prim.Native.Nat.{ℕ, zero, suc, ◌+◌, ◌-◌, ◌*◌, ◌/◌, ◌%◌, ◌^◌, ◌≤◌, ◌<◌, min}
pub use Prim.Native.String.{String}
pub use mathlib.Core.Path.{◌≡◌, refl, sym, ap, ◌∙◌, fun_ext}
pub use mathlib.Core.Logic.{◌≢◌, ◌↔◌, ◌⊎◌, inl, inr}
pub use mathlib.Core.Bool.{Bool, true, false, ◌&&◌, ◌||◌, not}
pub use mathlib.Core.Option.{Option, none, some}
pub use mathlib.Core.List.{List, [], ◌∷◌, ◌++◌, map}
pub use native.Mathlib.Omega.{arith}
pub use text.Mathlib.Text.{◌==◌ as str_eq}
pub use text.Mathlib.TextEquality.{eq_iff}
pub use text.Mathlib.TextPositions.{eq_refl}
