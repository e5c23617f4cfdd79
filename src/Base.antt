-- ===== src/Base.antt =====
-- The names that the other modules share: the libraries', passed on, and those of the children.
mod Tests
mod Lists
mod Results
pub mod Keeps
mod Text
pub mod Int
pub use Tests.*
pub use Lists.*
unfoldable pub use Lists.{select, find, any, update_where}
pub use Results.*
unfoldable pub use Text.{is_space, trim_left, trim_right, trim, lower_char, lower, equal_fold}
unfoldable pub use Text.{contains, has_prefix, after_last_at, glue, text_length, text_front}
unfoldable pub use Text.{text_from, digits}
pub use Text.{decimal}
pub use Text.{non_empty, or_else}
pub use Prim.Native.Nat.{ℕ, zero, suc, ◌+◌, ◌-◌, ◌*◌, ◌/◌, ◌%◌, ◌^◌, ◌≤◌, ◌<◌}
pub use Prim.Native.String.{String}
pub use mathlib.Core.Path.{◌≡◌, refl, sym, ap, ◌∙◌}
pub use mathlib.Core.Logic.{◌≢◌, ◌↔◌, ◌⊎◌, inl, inr}
pub use mathlib.Core.Bool.{Bool, true, false, not, ◌&&◌, ◌||◌}
pub use mathlib.Core.Option.{Option, none, some}
pub use mathlib.Core.List.{List, [], ◌∷◌, ◌++◌, map}
pub use native.Mathlib.Omega.{arith}
pub use text.Mathlib.Text.{◌==◌}
pub use text.Mathlib.TextEquality.{eq_iff}
pub use text.Mathlib.TextPositions.{eq_refl}
