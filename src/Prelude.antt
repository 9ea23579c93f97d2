-- ===== src/Prelude.antt =====
-- The names that the other modules share: the libraries', passed on, and those of the children.
mod Tests
mod Lists
pub mod Equality
pub mod Dict
pub mod Sort
pub mod Perms
pub mod Text
pub use Tests.*
pub use Lists.{
  length, get_elem?, All, length-append, any-append, select-append, length-select, All-append,
  All-select, All-both, All-weaken, all-append, all-select, length-map,
}
unfoldable pub use Lists.{any, all, select}
pub use Equality.{
  Eq, ◌==◌, nat_eq, pair_eq, Distinct, eq_self, sound, sound_not, member-append, Distinct-snoc,
  is_distinct→Distinct, subset_self, subset-append, subset-select, subset-member, member-of_all,
  member-All, all-of_member,
}
unfoldable pub use Equality.{member, is_distinct, subset}
pub use Prim.Native.Nat.{ℕ, zero, suc, ◌+◌, ◌-◌, ◌*◌, ◌/◌, ◌%◌, ◌^◌, ◌≤◌, ◌<◌, max, min}
pub use Prim.Native.String.{String}
pub use mathlib.Core.Path.{◌≡◌, refl, sym, ap, ◌∙◌, subst, ◌≡⟨◌⟩◌, ◌∎}
pub use mathlib.Core.Logic.{◌≢◌, ◌↔◌, ◌⊎◌, inl, inr}
pub use mathlib.Core.Bool.{Bool, true, false, ◌&&◌, ◌||◌, not}
pub use mathlib.Core.Option.{Option, none, some}
pub use mathlib.Core.List.{List, [], ◌∷◌, ◌++◌, map, append_assoc, append-nil, map-append}
pub use native.Mathlib.Omega.{arith}
