-- ===== src/Base.antt =====
-- The names that the components share: the libraries', passed on, and those of five children.
mod Tests
mod Lists
mod Text
mod Int
mod Below
pub use Int.*
unfoldable pub use Below.{all_below}
pub use Below.{all_below-elim, bool_eq, bool_eq-eq}
pub use Tests.*
pub use Lists.*
unfoldable pub use Text.{bytes_eq, c_string, fmt_ulong, fmt_octal, fmt_int, snprintf}
unfoldable pub use Text.Scan.{sscanf_int}
pub use Text.Scan.{sscanf_int-fmt_int, length-fmt_int}
pub use Text.{Bytes, codes, bytes_eq_iff, text_or, fmt_ulong-All}
pub use Prim.Native.Nat.{ℕ, zero, suc, ◌+◌, ◌-◌, ◌*◌, ◌/◌, ◌%◌, ◌^◌, ◌≤◌, ◌<◌, bit_and, bit_or}
pub use Prim.Native.String.{String}
pub use mathlib.Core.Path.{◌≡◌, refl, sym, ap, subst, ◌∙◌}
pub use mathlib.Core.Logic.{◌≢◌, ◌↔◌, ◌⊎◌, inl, inr}
pub use mathlib.Core.Bool.{Bool, true, false, not, ◌&&◌, ◌||◌}
pub use mathlib.Core.Option.{Option, none, some}
pub use mathlib.Core.List.{List, [], ◌∷◌, ◌++◌, append-nil, append_assoc}
pub use native.Mathlib.Omega.{arith}
