-- ===== src/Prelude.antt =====
-- The names that the other modules share: the library's, passed on, and those of the children:
-- Boolean tests on numbers, lists by position, and Python's dict.
mod Tests
mod Lists
mod Bytes
mod Struct
pub mod Dict
pub use Prim.Native.String.{String}
unfoldable pub use Tests.*
pub use Lists.*
unfoldable pub use Bytes.*
unfoldable pub use Struct.*
pub use Prim.Native.Nat.{ℕ, zero, suc, ◌+◌, ◌-◌, ◌*◌, ◌/◌, ◌%◌, ◌^◌, ◌≤◌, ◌<◌, min, max}
pub use mathlib.Core.Path.{◌≡◌, refl, sym, ap, ap₂, subst, ◌∙◌}
pub use mathlib.Core.Logic.{◌≢◌, ◌↔◌, ◌⊎◌, inl, inr, ite, if_pos, if_neg}
pub use mathlib.Core.Bool.{Bool, true, false, not, ◌&&◌, ◌||◌}
pub use mathlib.Core.Option.{Option, none, some, some-injective}
pub use mathlib.Core.List.{List, [], ◌∷◌, ◌++◌, map, append-nil, append_assoc}
pub use native.Mathlib.Nat.{add-zero, add-suc, suc-add, le_refl, le_trans}
pub use native.Mathlib.Omega.{arith}
unfoldable pub use native.Mathlib.Decide.{dec_lt, dec_le, ℕ_discrete}
