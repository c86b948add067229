-- ===== src/Prelude.antt =====
-- The names that the other modules share: the libraries', passed on, and those of the children.
mod Tests
mod Lists
mod Dicts
mod Texts
mod Decimal
mod Int
pub mod Ratio
pub mod Sorting
pub use Tests.*
unfoldable pub use Lists.*
unfoldable pub use Decimal.*
pub use Int.{ℤ, pos, negsuc}
unfoldable pub use Texts.*
unfoldable pub use Dicts.{Dict, get, put}
pub use Dicts.{get-put, get-put_self, get-put_ne}
pub use Prim.Native.Nat.{ℕ, zero, suc, ◌+◌, ◌-◌, ◌*◌, ◌/◌, ◌%◌, ◌^◌, ◌≤◌, ◌<◌, min, max}
pub use mathlib.Core.Path.{◌≡◌, refl, sym, ap, ◌∙◌, subst}
pub use mathlib.Core.Logic.{◌≢◌, ◌↔◌, ◌⊎◌, inl, inr}
pub use mathlib.Core.Bool.{Bool, true, false, ◌&&◌, ◌||◌, not}
pub use mathlib.Core.Option.{Option, none, some}
pub use mathlib.Core.List.{List, [], ◌∷◌, ◌++◌, map}
pub use native.Mathlib.Omega.{arith}
unfoldable pub use native.Mathlib.Decide.{dec_lt, ℕ_discrete}

-- On an `unfolding` line, this opens the functions on texts, dictionaries and lists for a test.
unfoldable pub builtins : Unit {0}
unfolding get put eqb strip strip_bytes any_of starts_with contains
builtins = tt
