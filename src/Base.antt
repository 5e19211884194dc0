-- ===== src/Base.antt =====
-- The names that the other modules share: the libraries', passed on, and those of the children:
-- Boolean tests, C integers and words, arrays as functions of their index, the search loop.
mod Tests
mod Arrays
mod Search
pub mod Int
pub mod Bits
pub mod Fields
pub use Tests.*
unfoldable pub use Arrays.{slice, blit}
pub use Arrays.{update, length, get_or, take, drop, length-append, length-slice, get_or-past}
unfoldable pub use Search.{find_from}
pub use Search.{IsFirst, find_from-IsFirst, find_from-none, find_from-some}
pub use Prim.Native.Nat.{ℕ, zero, suc, ◌+◌, ◌-◌, ◌*◌, ◌/◌, ◌%◌, ◌^◌, ◌≤◌, ◌<◌, bit_and, bit_or, min}
pub use mathlib.Core.Path.{◌≡◌, refl, sym, ap, ◌∙◌, subst}
pub use mathlib.Core.Logic.{◌≢◌, ◌↔◌, ◌⊎◌, inl, inr}
pub use mathlib.Core.Bool.{Bool, true, false, not, ◌&&◌, ◌||◌}
pub use mathlib.Core.Option.{Option, none, some}
pub use mathlib.Core.List.{List, [], ◌∷◌, ◌++◌, map, reverse, append_assoc, append-nil}
pub use native.Mathlib.Omega.{arith}
unfoldable pub use native.Mathlib.Decide.{dec_lt, ℕ_discrete}
