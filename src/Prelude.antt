-- ===== src/Prelude.antt =====
-- The names that the other modules share: those of the libraries, passed on, and those of the
-- children, for the parts of Python that every file of the repository uses.
mod Tests
mod Lists
mod Equality
mod Texts
mod Errors
pub mod Dicts
pub mod Numbers
pub mod Int
pub mod Format
pub mod Paths
pub use Tests.*
pub use Lists.*
pub use Equality.*
pub use Errors.*
pub use Texts.{
  Text, HasNone, HasNone-append, split_at-append, split_at_none, split_last-append,
  split_last_after, split_last_none, starts_with_missing, split_last-HasNone, join-split_at,
  starts_with-append, basename,
}
unfoldable pub use Lists.{any, all, keep}
unfoldable pub use Equality.{list_beq, contains}
unfoldable pub use Errors.{collect}
unfoldable pub use Texts.{codes, split_at, last_or, split_last, join, starts_with, contains_text}
pub use Prim.Native.Nat.{ℕ, zero, suc, ◌+◌, ◌-◌, ◌*◌, ◌/◌, ◌%◌, ◌^◌, ◌≤◌, ◌<◌, min, max}
pub use Prim.Native.String.{String}
pub use mathlib.Core.Path.{◌≡◌, refl, sym, ap, subst, ◌∙◌}
pub use mathlib.Core.Logic.{◌≢◌, ◌↔◌, ◌⊎◌, inl, inr}
pub use mathlib.Core.Bool.{Bool, true, false, not, ◌&&◌, ◌||◌}
pub use mathlib.Core.Option.{Option, none, some}
pub use mathlib.Core.List.{List, [], ◌∷◌, ◌++◌, map}
pub use native.Mathlib.Omega.{arith}
