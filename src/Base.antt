-- ===== src/Base.antt =====
-- What the modules share: the names of the libraries, Boolean tests on numbers, lists measured by
-- native numbers, and the results of code that may raise.
mod Tests
mod Lists
mod Count
mod Raise
mod Sequences
mod Unique
pub mod Int
pub mod Ends
pub mod Text
pub use Tests.*
pub use Lists.*
pub use Count.*
pub use Raise.*
unfoldable pub use Sequences.*
unfoldable pub use Unique.*
pub use Prim.Native.Nat.{ℕ, zero, suc, ◌+◌, ◌-◌, ◌*◌, ◌/◌, ◌%◌, ◌^◌, ◌≤◌, ◌<◌, min, max}
pub use mathlib.Core.Path.{◌≡◌, refl, sym, ap, ◌∙◌, fun_ext, subst}
pub use mathlib.Core.Logic.{◌≢◌, ◌↔◌, ◌⊎◌, inl, inr, ite, dite, if_pos, if_neg}
pub use mathlib.Core.Bool.{Bool, true, false, not, ◌&&◌, ◌||◌}
pub use mathlib.Core.Option.{Option, none, some}
pub use mathlib.Core.List.{List, [], ◌∷◌, ◌++◌, map, append-nil, append_assoc}
pub use native.Mathlib.Omega.{arith}
unfoldable pub use native.Mathlib.Decide.{dec_lt, dec_le, ℕ_discrete}
