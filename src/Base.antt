-- ===== src/Base.antt =====
-- The names that the other modules share: the libraries', passed on, and those of the children.
mod Tests
mod Lists
mod Words
mod Maps
mod Texts
pub use Tests.*
pub use Lists.*
pub use Texts.{
  Text, then_cmp, then_cmp-eq, eq-cmp_text, cmp_text_self, eq-same_text, same_text_self,
  decimal-injective,
}
unfoldable pub use Texts.{cmp_text, same_text, decimal, number_keyed, text_keyed}
pub use Maps.{eq-same_key, same_key_self, lookup-put_key, lookup-remove_key, Ordering-cases}
pub use Maps.{Keyed, Map, is_equal, same_key}
unfoldable pub use Maps.{lookup, put_key, remove_key}
unfoldable pub use Words.{add64, sub64, mul64, shl64, shr64}
pub use Words.{u64_mod, add64_lem, add64-le, sub64_lem}
pub use Prim.Native.Nat.{ℕ, zero, suc, ◌+◌, ◌-◌, ◌*◌, ◌/◌, ◌%◌, ◌≤◌, ◌<◌, min, max, bit_xor}
pub use mathlib.Core.Path.{◌≡◌, refl, sym, ap, ◌∙◌}
pub use mathlib.Core.Logic.{◌≢◌, ◌↔◌, ◌⊎◌, inl, inr}
pub use mathlib.Core.Bool.{Bool, true, false, not, ◌&&◌, ◌||◌}
pub use mathlib.Core.Option.{Option, none, some}
pub use mathlib.Core.List.{List, [], ◌∷◌, ◌++◌, map}
pub use native.Mathlib.Omega.{arith}
