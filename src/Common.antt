-- ===== src/Common.antt =====
-- Names that the other modules share: the libraries' names passed on, Boolean tests on native
-- numbers, Go's outcomes of a call, and (in child modules) byte strings, Go maps, stable sorting
-- and the interface of float64.
mod Tests
mod Lists
mod Bytes
mod Maps
mod Sort
mod Float
mod Int
mod Outcome
mod Signing
pub use Int.*
pub use Outcome.*
pub use Signing.*
pub use Tests.*
pub use Lists.*
pub use Bytes.*
pub use Maps.*
pub use Sort.*
pub use Float.*
unfoldable pub use Bytes.{text_eq, decimal, hex_encode}
unfoldable pub use Maps.{lookup, insert, erase}
unfoldable pub use Sort.{sort_insert, sort_stable}
unfoldable pub use Int.{◌+ℤ◌, ◌-ℤ◌, int_text}
pub use Prim.Native.Nat.{ℕ, zero, suc, ◌+◌, ◌-◌, ◌*◌, ◌/◌, ◌%◌, ◌^◌, ◌≤◌, ◌<◌, min}
pub use mathlib.Core.Path.{◌≡◌, refl, sym, ap, ◌∙◌}
pub use mathlib.Core.Logic.{◌≢◌, ◌↔◌, ◌⊎◌, inl, inr}
pub use mathlib.Core.Bool.{Bool, true, false, not, ◌&&◌, ◌||◌}
pub use mathlib.Core.Option.{Option, none, some}
pub use mathlib.Core.List.{List, [], ◌∷◌, ◌++◌, map, reverse}
pub use native.Mathlib.Omega.{arith}
