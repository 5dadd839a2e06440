-- ===== src/Base.antt =====
-- The names that the modules of the library share: the numbers, lists, options, Boolean tests and
-- maps that the models are written in.
pub mod Tests
pub mod Lists
pub mod Map
pub mod Fallible
pub mod Int
pub mod Text
pub use Tests.*
unfoldable pub use Lists.*
pub use Fallible.*
pub use Text.{codes}
pub use Map.{
  Eq, ◌===◌, nat_eq, Bytes, bytes_beq_iff, bytes_eq, lookup-insert, lookup-delete,
  lookup-insert_self, lookup-insert_ne,
}
unfoldable pub use Map.{bytes_beq, lookup, insert, delete}
pub use Prim.Native.Nat.{ℕ, zero, suc, ◌+◌, ◌-◌, ◌*◌, ◌/◌, ◌%◌, ◌^◌, ◌≤◌, ◌<◌, min, max}
pub use mathlib.Core.Path.{◌≡◌, refl, sym, ap, ap₂, ◌∙◌, subst, ◌≡⟨◌⟩◌, ◌∎}
pub use mathlib.Core.Logic.{◌≢◌, ◌↔◌, ◌⊎◌, inl, inr}
pub use mathlib.Core.Bool.{Bool, true, false, not, ◌&&◌, ◌||◌}
pub use mathlib.Core.Option.{Option, none, some}
pub use mathlib.Core.List.{List, [], ◌∷◌, ◌++◌, map, append-nil, append_assoc}
pub use native.Mathlib.Omega.{arith}
