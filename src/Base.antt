-- ===== src/Base.antt =====
-- The names that every module shares: those of the libraries, passed on, and those of the children.
mod Tests
mod Lists
mod Outcome
mod Integer
mod Strings
mod Patterns
mod Sort
mod Assoc
pub use Tests.*
pub use Lists.*
pub use Outcome.*
pub use Integer.*
pub use Strings.*
pub use Patterns.*
pub use Sort.*
pub use Assoc.*
unfoldable pub use Sort.{insert_by, sort_by}
unfoldable pub use Assoc.{get, set, remove}
unfoldable pub use Patterns.{
  is_digit, is_lower_hex, is_hash, is_prefixed_hash, is_atomic, is_capability_class, is_tool_name,
}
pub use Prim.Native.Nat.{ℕ, zero, suc, ◌+◌, ◌-◌, ◌*◌, ◌/◌, ◌%◌, ◌^◌, ◌≤◌, ◌<◌, min}
pub use Prim.Native.String.{String}
pub use mathlib.Core.Path.{◌≡◌, refl, sym, ap, ◌∙◌, subst}
pub use mathlib.Core.Logic.{◌≢◌, ◌↔◌, ◌⊎◌, inl, inr}
pub use mathlib.Core.Bool.{Bool, true, false, not, ◌&&◌, ◌||◌}
pub use mathlib.Core.Option.{Option, none, some}
pub use mathlib.Core.List.{List, [], ◌∷◌, ◌++◌, map, append-nil, append_assoc}
pub use native.Mathlib.Omega.{arith}
