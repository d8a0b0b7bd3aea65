-- ===== src/Base.antt =====
-- Names shared by every module: the libraries', passed on, the Boolean tests on native numbers, and
-- the helpers of the children: texts, string-keyed maps, Go's errors and actions on a world.
mod Tests
pub mod Text
pub mod Dict
pub mod Error
pub mod Act
pub mod Int
pub mod Distinct
pub mod Sort
pub mod Base64
pub mod Decoding
pub mod Wrap
pub mod TextEdit
pub mod Wrapping
pub mod Outcomes
pub use Tests.*
pub use Prim.Native.Nat.{ℕ, zero, suc, ◌+◌, ◌-◌, ◌*◌, ◌^◌, ◌≤◌, ◌<◌}
pub use Prim.Native.String.{String, ◌++◌ as ◌<>◌}
pub use mathlib.Core.Path.{◌≡◌, refl, sym, ap, ◌∙◌}
pub use mathlib.Core.Logic.{◌≢◌, ◌↔◌, ◌⊎◌, inl, inr}
pub use mathlib.Core.Bool.{Bool, true, false, not, ◌&&◌, ◌||◌}
pub use mathlib.Core.Option.{Option, none, some}
pub use mathlib.Core.List.{List, [], ◌∷◌, ◌++◌, map}
pub use native.Mathlib.Omega.{arith}
pub use text.Mathlib.Text.{◌==◌}
pub use text.Mathlib.TextEquality.{eq_iff}
