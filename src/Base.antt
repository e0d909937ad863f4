-- ===== src/Base.antt =====
-- Names shared by every module: the libraries' names passed on, Boolean tests on the native
-- numbers, lists measured by them, families indexed by them, and machine words.
mod Tests
mod Lists
mod Maps
mod Families
mod Words
pub use Tests.*
pub use Lists.*
unfoldable pub use Maps.*
unfoldable pub use Families.*
pub use Words.*
pub use Prim.Native.Nat.{ℕ, zero, suc, ◌+◌, ◌-◌, ◌*◌, ◌/◌, ◌%◌, ◌^◌, ◌≤◌, ◌<◌, min}
pub use mathlib.Core.Path.{◌≡◌, refl, sym, ap, ◌∙◌, fun_ext}
pub use mathlib.Core.Logic.{◌≢◌, ◌↔◌, ◌⊎◌, inl, inr}
pub use mathlib.Core.Bool.{Bool, true, false, not, ◌&&◌, ◌||◌}
pub use mathlib.Core.Option.{Option, none, some}
pub use mathlib.Core.List.{List, [], ◌∷◌, ◌++◌, map}
pub use native.Mathlib.Omega.{arith}
