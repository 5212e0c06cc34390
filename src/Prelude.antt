-- ===== src/Prelude.antt =====
-- The names that the modules share: the libraries' own, passed on, and those of three children.
mod Tests
mod Lists
mod Int
mod Text
mod Duration
pub use Tests.*
pub use Lists.*
unfoldable pub use Int.*
pub use Text.*
unfoldable pub use Duration.{wrap64, seconds, since}
pub use Prim.Native.Nat.{ℕ, zero, suc, ◌+◌, ◌-◌, ◌*◌, ◌/◌, ◌%◌, ◌^◌, ◌≤◌, ◌<◌}
pub use Prim.Native.String.{String}
pub use mathlib.Core.Path.{◌≡◌, refl, sym, ap, subst, ◌∙◌}
pub use mathlib.Core.Logic.{◌≢◌, ◌↔◌, ◌⊎◌, inl, inr}
pub use mathlib.Core.Bool.{Bool, true, false, not, ◌&&◌, ◌||◌}
pub use mathlib.Core.Option.{Option, none, some}
pub use mathlib.Core.List.{List, [], ◌∷◌, ◌++◌, map, reverse, append_assoc}
pub use native.Mathlib.Omega.{arith}
