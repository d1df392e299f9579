-- ===== src/Shared.antt =====
-- The names that the modules share: the libraries', passed on, and those of the children.
mod Tests
mod Lists
mod Maps
mod Results
mod Text
pub use Text.{concat, utf16_length, has_visible}
pub use Tests.*
pub use Lists.*
pub use Results.*
pub use Maps.{
  Dict, has, size, values, Distinct, get-put, get-remove, put-Distinct, remove-Distinct,
  remove_of_none, total-put_new, total-put, total-remove, size-put_new, size-put, size-remove-le,
  size-remove,
}
unfoldable pub use Text.{show}
unfoldable pub use Maps.{get, put, remove, total}
pub use Prim.Native.Nat.{ℕ, zero, suc, ◌+◌, ◌-◌, ◌*◌, ◌/◌, ◌%◌, ◌^◌, ◌≤◌, ◌<◌, min, max}
pub use Prim.Native.String.{String}
pub use mathlib.Core.Path.{◌≡◌, refl, sym, ap, subst, ◌∙◌}
pub use mathlib.Core.Logic.{◌≢◌, ◌↔◌, ◌⊎◌, inl, inr}
pub use mathlib.Core.Bool.{Bool, true, false, not, ◌&&◌, ◌||◌}
pub use mathlib.Core.Option.{Option, none, some}
pub use mathlib.Core.List.{List, [], ◌∷◌, ◌++◌, map, append_assoc, append-nil}
pub use native.Mathlib.Omega.{arith}
pub use text.Mathlib.Text.{◌==◌ as str_eq}
pub use text.Mathlib.TextEquality.{eq_iff}
