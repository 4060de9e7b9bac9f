-- ===== src/Prelude.antt =====
-- Shared names: the libraries', passed on, and those of the children (Boolean tests on numbers,
-- lists indexed by native numbers, arrays with a default).
mod Tests
mod Lists
mod Arrays
pub use Tests.*
pub use Lists.*
unfoldable pub use Arrays.*
pub use Prim.Native.Nat.{ℕ, zero, suc, ◌+◌, ◌-◌, ◌*◌, ◌/◌, ◌%◌, ◌^◌, ◌≤◌, ◌<◌}
pub use mathlib.Core.Path.{◌≡◌, refl, sym, ap, ◌∙◌, subst}
pub use mathlib.Core.Logic.{◌≢◌, ◌↔◌, ◌⊎◌, inl, inr}
pub use mathlib.Core.Bool.{Bool, true, false, not, ◌&&◌, ◌||◌}
pub use mathlib.Core.Option.{Option, none, some}
pub use mathlib.Core.List.{List, [], ◌∷◌, ◌++◌, map, Mem, Perm, Nodup}
pub use native.Mathlib.Omega.{arith}
