-- ===== src/Common.antt =====
-- The names that the other modules share: those of the libraries, passed on, and of the children:
-- tests on numbers, lists, signed integers and 32-bit words.
mod Tests
mod Lists
mod Int
mod Words
pub use Tests.*
pub use Lists.*
pub use Int.*
pub use Words.*
unfoldable pub use Int.{◌+ℤ◌, add_off}
pub use Prim.Native.Nat.{ℕ, zero, suc, ◌+◌, ◌-◌, ◌*◌, ◌/◌, ◌%◌, ◌^◌, ◌≤◌, ◌<◌, min, max}
pub use Prim.Native.Nat.{bit_and, bit_or}
pub use mathlib.Core.Path.{◌≡◌, refl, sym, ap, ap₂, ◌∙◌, subst}
pub use mathlib.Core.Logic.{◌≢◌, ◌↔◌, ◌⊎◌, inl, inr}
pub use mathlib.Core.Bool.{Bool, true, false, not, ◌&&◌, ◌||◌}
pub use mathlib.Core.Option.{Option, none, some}
pub use mathlib.Core.List.{List, [], ◌∷◌, ◌++◌, append-nil, append_assoc}
pub use native.Mathlib.Omega.{arith}
