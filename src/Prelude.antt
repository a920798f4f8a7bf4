-- ===== src/Prelude.antt =====
-- Names that the other modules share: those of the libraries, passed on, Boolean tests on native
-- numbers, results, keyed maps, and the arithmetic of unsigned machine words.
mod Tests
mod Words
mod Maps
mod Texts
mod Int
mod Orders
mod Sorting
pub use Tests.*
pub use Words.*
pub use Maps.*
pub use Texts.*
pub use Int.*
pub use Orders.*
pub use Sorting.*
pub use Prim.Native.Nat.{ℕ, zero, suc, ◌+◌, ◌-◌, ◌*◌, ◌/◌, ◌%◌, ◌^◌, ◌≤◌, ◌<◌, min, max}
pub use mathlib.Core.Path.{◌≡◌, refl, sym, ap, ◌∙◌}
pub use mathlib.Core.Logic.{◌≢◌, ◌↔◌, ◌⊎◌, inl, inr}
pub use mathlib.Core.Bool.{Bool, true, false, not, ◌&&◌, ◌||◌}
pub use mathlib.Core.Option.{Option, none, some}
pub use mathlib.Core.List.{List, [], ◌∷◌, ◌++◌, map}
pub use native.Mathlib.Omega.{arith}
