-- ===== src/Prelude.antt =====
-- The names that the other modules share: the libraries', passed on, and those of the children.
mod Tests
mod Equality
mod Digest
mod Errors
mod Lists
mod Assoc
mod Int
mod Sorting
mod Floats
mod Samples
pub use Tests.*
pub use Errors.*
pub use Lists.*
unfoldable pub use Assoc.{lookup, insert, without}
pub use Assoc.{Dict, contains, lookup-insert, lookup-insert_self, lookup-without}
unfoldable pub use Int.{◌-ℤ◌}
pub use Int.{ℤ, pos, negsuc, pos_part, neg_part, sub_ℕ, ltb_ℤ, leb_ℤ, -ℤ_parts}
unfoldable pub use Equality.{String_discrete}
pub use Equality.{ne_by_test, holds, Eq, ◌==◌, nat_eq, string_eq, option_eq}
unfoldable pub use Digest.{str, join, prefixed, first_chars}
pub use Sorting.{sorted-perm}
unfoldable pub use Sorting.{sorted, insert_sorted, text_leb}
pub use Digest.{Sha256, prefixed-ne_empty}
pub use Prim.Native.Nat.{ℕ, zero, suc, ◌+◌, ◌-◌, ◌^◌, ◌≤◌, ◌<◌}
pub use Prim.Native.String.{String}
pub use mathlib.Core.Path.{◌≡◌, refl, sym, ap, ◌∙◌}
pub use mathlib.Core.Logic.{◌≢◌, ◌↔◌, ◌⊎◌, inl, inr}
pub use mathlib.Core.Bool.{Bool, true, false, not, ◌&&◌, ◌||◌}
pub use mathlib.Core.Option.{Option, none, some}
pub use mathlib.Core.List.{List, [], ◌∷◌, ◌++◌, map}
pub use native.Mathlib.Omega.{arith}
unfoldable pub use native.Mathlib.Decide.{ℕ_discrete}
pub use Floats.{Float, Clock, min_float, max_float}
pub use Samples.{text_digest, milliseconds, microseconds}
