-- ===== src/Base.antt =====
-- What the modules share: the libraries' names, tests on numbers, lists and C's integers.
mod Tests
mod Lists
mod Int
mod Text
pub mod Maps
pub use Tests.*
pub use Lists.*
pub use Int.*
pub use Prim.Native.String.{String}
pub use Text.{str_eq, str_append}
unfoldable pub use Text.{to_string}
pub use text.Mathlib.TextEquality.{eq_iff}
pub use Prim.Native.Nat.{ℕ, zero, suc, ◌+◌, ◌-◌, ◌*◌, ◌/◌, ◌%◌, ◌^◌, ◌≤◌, ◌<◌}
pub use mathlib.Core.Path.{◌≡◌, refl, sym, ap, ◌∙◌}
pub use mathlib.Core.Logic.{◌≢◌, ◌⊎◌, inl, inr}
pub use mathlib.Core.Bool.{Bool, true, false, not, ◌&&◌, ◌||◌}
pub use mathlib.Core.Option.{Option, none, some}
pub use mathlib.Core.List.{List, [], ◌∷◌, ◌++◌, map, append_assoc, append-nil}
pub use native.Mathlib.Omega.{arith}
