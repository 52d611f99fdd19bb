-- ===== src/Prelude.antt =====
-- What the other modules share: the library names passed on, Boolean tests on native numbers,
-- byte lists, and the outcome of Rust code that may return an error or panic.
mod Tests
mod Lists
mod ByteStrings
mod Results
mod Arrays
unfoldable pub use Tests.*
pub use Lists.*
unfoldable pub use ByteStrings.*
pub use Results.*
unfoldable pub use Arrays.*
pub use Prim.Native.Nat.{ℕ, zero, suc, ◌+◌, ◌-◌, ◌*◌, ◌/◌, ◌%◌, ◌^◌, ◌≤◌, ◌<◌}
pub use Prim.Native.String.{String}
pub use mathlib.Core.Path.{◌≡◌, refl, sym, ap, ◌∙◌}
pub use mathlib.Core.Logic.{◌≢◌, ◌↔◌, ◌⊎◌, inl, inr}
pub use mathlib.Core.Bool.{Bool, true, false, not, ◌&&◌, ◌||◌}
pub use mathlib.Core.Option.{Option, none, some}
pub use mathlib.Core.List.{List, [], ◌∷◌, ◌++◌, map, append-nil, append_assoc}
pub use native.Mathlib.Omega.{arith}
