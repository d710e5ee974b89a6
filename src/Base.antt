-- ===== src/Base.antt =====
-- The names that every module shares: the libraries', passed on, and those of the children below.
pub mod Framed
mod Tests
mod Equality
mod Lists
mod Assoc
mod Bytes
pub mod Result
unfoldable pub use Tests.*
unfoldable pub use native.Mathlib.Decide.{ℕ_discrete}
unfoldable pub use Equality.*
unfoldable pub use Lists.*
unfoldable pub use Bytes.*
unfoldable pub use Assoc.*
pub use Prim.Native.Nat.{ℕ, zero, suc, ◌+◌, ◌-◌, ◌*◌, ◌/◌, ◌%◌, ◌^◌, ◌≤◌, ◌<◌, min, max}
pub use Prim.Native.String.{String}
pub use mathlib.Core.Path.{◌≡◌, refl, sym, ap, subst, fun_ext, ◌∙◌}
pub use mathlib.Core.Logic.{◌≢◌, ◌↔◌, ◌⊎◌, inl, inr}
pub use mathlib.Core.Bool.{Bool, true, false, not, ◌&&◌, ◌||◌}
pub use mathlib.Core.Option.{Option, none, some}
pub use mathlib.Core.List.{List, [], ◌∷◌, ◌++◌, map, append_assoc, append-nil, map-append}
pub use native.Mathlib.Omega.{arith}
