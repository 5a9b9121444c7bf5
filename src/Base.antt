-- ===== src/Base.antt =====
-- What the components share: the names of the libraries, passed on, and the children below.
-- They stand for the C++ standard library as the code uses it: strings, vectors, maps,
-- optionals, exceptions and fixed-width integers.
mod Tests
mod Lists
mod Words
pub mod Eq
pub mod Result
pub mod Bytes
pub mod Assoc
pub mod AssocValues
pub use Tests.*
pub use Lists.*
unfoldable pub use Words.{inc32, inc64, to_u32}
pub use Words.{inc32_lem, inc64_lem, to_u32_lem, u32_mod, u64_mod}
pub use Prim.Native.Nat.{ℕ, zero, suc, ◌+◌, ◌-◌, ◌*◌, ◌/◌, ◌%◌, ◌^◌, ◌≤◌, ◌<◌}
pub use mathlib.Core.Path.{◌≡◌, refl, sym, ap, ap₂, ◌∙◌, subst, fun_ext}
pub use mathlib.Core.Logic.{◌≢◌, ◌↔◌, ◌⊎◌, inl, inr}
pub use mathlib.Core.Bool.{Bool, true, false, not, ◌&&◌, ◌||◌}
pub use mathlib.Core.Option.{Option, none, some}
pub use mathlib.Core.List.{List, [], ◌∷◌, ◌++◌, map, append_assoc, append-nil, map-append}
pub use native.Mathlib.Omega.{arith}
