-- ===== src/Base.antt =====
-- The names that the other modules share: the libraries', passed on, and those of the children.
mod Tests
mod Lists
mod Texts
mod Order
mod Pairs
mod Numbers
mod Ints
mod Bits
mod Utf8
mod Parts
mod Lossy
pub mod OrdMap
unfoldable pub use Tests.*
unfoldable pub use Lists.*
unfoldable pub use Texts.*
unfoldable pub use Order.*
unfoldable pub use Pairs.*
unfoldable pub use Numbers.*
unfoldable pub use Ints.*
unfoldable pub use Bits.*
unfoldable pub use Utf8.*
unfoldable pub use Parts.*
unfoldable pub use Lossy.*
pub use Prim.Native.Nat.{
  ℕ, zero, suc, bit_or, bit_xor, ◌+◌, ◌-◌, ◌*◌, ◌/◌, ◌%◌, ◌^◌, ◌≤◌, ◌<◌, min, max,
}
pub use Prim.Native.String.{String}
pub use mathlib.Core.Path.{◌≡◌, refl, sym, ap, ap₂, ◌∙◌, subst}
pub use mathlib.Core.Logic.{◌≢◌, ◌↔◌, ◌⊎◌, inl, inr}
pub use mathlib.Core.Bool.{Bool, true, false, not, ◌&&◌, ◌||◌}
pub use mathlib.Core.Option.{Option, none, some}
pub use mathlib.Core.List.{List, [], ◌∷◌, ◌++◌, map, append-nil, append_assoc}
pub use native.Mathlib.Omega.{arith}
