-- ===== src/Base.antt =====
-- The names that the other modules share: the libraries', passed on, and those of the children.
pub mod Tests
pub mod Lists
pub mod Monad
pub mod Ending
pub mod Preserving
pub mod Tables
pub mod Texts
pub use Prim.Native.Nat.{ℕ, zero, suc, ◌+◌, ◌-◌, ◌*◌, ◌/◌, ◌%◌, ◌≤◌, ◌<◌, min, max}
pub use Prim.Native.String.{String}
pub use mathlib.Core.Path.{◌≡◌, refl, sym, ap, ◌∙◌, subst}
pub use mathlib.Core.Logic.{◌≢◌, ◌↔◌, ◌⊎◌, inl, inr, ite, if_pos, if_neg}
pub use mathlib.Core.Bool.{Bool, true, false, not, ◌&&◌, ◌||◌}
pub use mathlib.Core.Option.{Option, none, some}
pub use mathlib.Core.List.{List, [], ◌∷◌, ◌++◌, map}
pub use native.Mathlib.Omega.{arith}
unfoldable pub use native.Mathlib.Decide.{ℕ_discrete, dec_lt, dec_le}
pub use Tests.{
  ltb, leb, ◌==◌, if◌then◌else◌, ltb→lt, leb→le, Bool-cases, Option-cases, List-cases, same,
  is_none,
}
unfoldable pub use Tests.{string_dec}
pub use Lists.*
pub use Monad.*
pub use Ending.*
pub use Preserving.*
unfoldable pub use Tables.*
unfoldable pub use Texts.*
