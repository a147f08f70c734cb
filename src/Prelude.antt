-- ===== src/Prelude.antt =====
-- The names that every other module shares: the libraries' names passed on, the Boolean tests,
-- the list operations over the native numbers and the decisions on the data that the code compares.
mod Tests
mod Lists
mod Int
mod Decisions
mod Maps
pub use Tests.*
pub use Lists.*
pub use Int.*
unfoldable pub use Maps.*
unfoldable pub use Decisions.*
pub use Prim.Native.Nat.{ℕ, zero, suc, ◌+◌, ◌-◌, ◌*◌, ◌/◌, ◌%◌, ◌^◌, ◌≤◌, ◌<◌, max}
pub use Prim.Native.String.{String}
pub use mathlib.Core.Path.{◌≡◌, refl, sym, ap, ap₂, ◌∙◌, subst, fun_ext}
pub use mathlib.Core.Logic.{◌≢◌, ◌↔◌, ◌⊎◌, inl, inr, ite, if_pos, if_neg}
pub use mathlib.Core.Bool.{Bool, true, false, not, ◌&&◌, ◌||◌}
pub use mathlib.Core.Option.{Option, none, some}
pub use mathlib.Core.List.{List, [], ◌∷◌, ◌++◌, map, append_assoc, append-nil, map-append}
pub use native.Mathlib.Omega.{arith}
