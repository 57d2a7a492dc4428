-- ===== src/Prelude.antt =====
-- The names the other modules share: the libraries', passed on, and those of the children.
mod Tests
pub mod Lists
mod Int
mod Text
mod Sort
pub use Tests.*
unfoldable pub use Sort.{insert_by, sort_by}
pub use Sort.{IsSorted, In-sort_by_iff, sort_by-IsSorted}
pub use Lists.*
unfoldable pub use Int.{◌+ℤ◌, ◌-ℤ◌}
pub use Int.{
  ℤ, pos, negsuc, pos_part, neg_part, sub_ℕ, ◌≤ℤ◌, ltb_ℤ, to_nat, +ℤ_parts, -ℤ_parts, eq_of_parts,
  int_laws,
}
pub use Text.{str_eq_refl, str_eq_true, str_eq_false, str_eq_sym, includes}
pub use Prim.Native.Nat.{ℕ, zero, suc, ◌+◌, ◌-◌, ◌*◌, ◌/◌, ◌%◌, ◌^◌, ◌≤◌, ◌<◌, min, max}
pub use Prim.Native.String.{String}
pub use mathlib.Core.Path.{◌≡◌, refl, sym, ap, ◌∙◌, subst}
pub use mathlib.Core.Logic.{◌≢◌, ◌↔◌, ◌⊎◌, inl, inr}
pub use mathlib.Core.Bool.{Bool, true, false, not, ◌&&◌, ◌||◌}
pub use mathlib.Core.Option.{Option, none, some}
pub use mathlib.Core.List.{List, [], ◌∷◌, ◌++◌, map}
pub use native.Mathlib.Omega.{arith}
unfoldable pub use text.Mathlib.Text.{◌==◌ as str_eq}
unfoldable pub use native.Mathlib.Decide.{dec_lt, ℕ_discrete}
