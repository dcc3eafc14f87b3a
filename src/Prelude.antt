-- ===== src/Prelude.antt =====
-- The names that the other modules share: the libraries', passed on, and those of the children.
mod Tests
mod Lists
mod Text
mod Equality
mod Int
mod NoRepeats
pub use Tests.*
pub use Lists.*
unfoldable pub use Text.*
pub use Equality.{Eq, ◌==◌, contains, contains-append}
pub use Equality.{nat_eq, string_eq, pair_eq}
pub use Int.*
pub use NoRepeats.*
pub use Prim.Native.Nat.{ℕ, zero, suc, ◌+◌, ◌-◌, ◌*◌, ◌/◌, ◌%◌, ◌^◌, ◌≤◌, ◌<◌, min, max}
pub use Prim.Native.String.{String, count as char_count}
pub use text.Mathlib.Text.{starts_with}
pub use text.Mathlib.TextPositions.{starts_with-append}
pub use mathlib.Core.Path.{◌≡◌, refl, subst, sym, ap, ◌∙◌, ◌≡⟨◌⟩◌, ◌∎}
pub use mathlib.Core.Logic.{◌≢◌, ◌↔◌, ◌⊎◌, inl, inr}
pub use mathlib.Core.Bool.{Bool, true, false, not, ◌&&◌, ◌||◌}
pub use mathlib.Core.Option.{Option, none, some}
pub use mathlib.Core.List.{List, [], ◌∷◌, ◌++◌, map, append-nil, append_assoc, map-append}
pub use native.Mathlib.Omega.{arith}
