-- ===== src/Base.antt =====
-- The names that all modules share: the libraries', passed on, and those of the children.
-- Nothing here models code of the repository.
mod Logic
mod Lists
mod Membership
mod Keys
mod Texts
pub use Logic.*
pub use Lists.*
pub use Membership.*
pub use Keys.*
pub use Texts.*
pub use Prim.Native.Nat.{ℕ, zero, suc, ◌+◌, ◌-◌, ◌≤◌, ◌<◌}
pub use mathlib.Core.Path.{◌≡◌, refl, sym, ap, ◌∙◌}
pub use mathlib.Core.Logic.{◌≢◌, ◌↔◌, ◌⊎◌, inl, inr}
pub use mathlib.Core.Bool.{Bool, true, false, not, ◌&&◌, ◌||◌}
pub use mathlib.Core.Option.{Option, none, some}
pub use mathlib.Core.List.{List, [], ◌∷◌, ◌++◌, map}
pub use native.Mathlib.Omega.{arith}
