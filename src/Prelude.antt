-- ===== src/Prelude.antt =====
-- Shared by every component: the libraries' names passed on, Boolean tests, byte lists, and the
-- way the Go code returns errors.
mod Tests
mod Lists
mod Outcome
mod ByteList
mod Table
mod Sort
mod Handles
pub use Tests.*
pub use Lists.*
pub use Table.*
pub use Handles.*
unfoldable pub use Sort.*
pub use Outcome.*
unfoldable pub use ByteList.*
pub use Prim.Native.Nat.{ℕ, zero, suc, ◌+◌, ◌-◌, ◌*◌, ◌/◌, ◌%◌, ◌^◌, ◌≤◌, ◌<◌, min, max}
pub use mathlib.Core.Path.{◌≡◌, refl, sym, ap, ◌∙◌}
pub use mathlib.Core.Logic.{◌≢◌, ◌↔◌, ◌⊎◌, inl, inr}
pub use mathlib.Core.Bool.{Bool, true, false, not, ◌&&◌, ◌||◌}
pub use mathlib.Core.Option.{Option, none, some}
pub use mathlib.Core.List.{List, [], ◌∷◌, ◌++◌, map, append-nil, append_assoc}
pub use native.Mathlib.Omega.{arith}
pub use Prim.Native.String.{String}
pub use text.Mathlib.Text.{◌==◌ as str_eq}
pub use text.Mathlib.TextEquality.{eq_iff}
