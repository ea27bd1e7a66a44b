-- ===== src/Base.antt =====
-- The names that the modules of this library share: the libraries' own, passed on, and those of the
-- children below (tests and conditionals, arrays, C integers, outcomes of kernel code).
mod Tests
mod Lists
mod Int
mod Results
mod Names
unfoldable pub use Tests.*
unfoldable pub use Lists.*
pub use Int.*
pub use Results.*
unfoldable pub use Names.*
pub use Prim.Native.Nat.{
  ℕ, zero, suc, ◌+◌, ◌-◌, ◌*◌, ◌/◌, ◌%◌, ◌^◌, ◌≤◌, ◌<◌, min, max, bit_and, bit_or, bit_xor,
}
pub use mathlib.Core.Path.{◌≡◌, refl, sym, ap, ap₂, ◌∙◌, subst, fun_ext}
pub use mathlib.Core.Logic.{◌≢◌, ◌↔◌, ◌⊎◌, inl, inr}
pub use mathlib.Core.Bool.{Bool, true, false, ◌&&◌, ◌||◌, not}
pub use mathlib.Core.Option.{Option, none, some}
pub use mathlib.Core.List.{List, [], ◌∷◌, ◌++◌, map}
pub use native.Mathlib.Omega.{arith}
