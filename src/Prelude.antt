-- ===== src/Prelude.antt =====
-- The names that the other modules share: the libraries' and those of the children.
mod Tests
mod Lists
mod Int
mod Floats
mod Texts
mod Results
mod Decimals
mod Split
mod Dicts
pub use Tests.*
pub use Lists.*
pub use Floats.*
pub use Results.*
pub use Decimals.{
  read-show_int, show_int-IsPlain, IsPlain, is_digit, IsNumeral, show_nat-IsNumeral, negated,
  read_signed,
}
unfoldable pub use Decimals.{show_nat, show_int, read_int, read_digits, show_digits}
pub use Split.{Lacks, IsSolid, split-join, split-closed, strip-solid, All-append, push_front}
unfoldable pub use Split.{split, join}
pub use Dicts.{get-put_key, get-put_other}
unfoldable pub use Dicts.{get_key, put_key}
unfoldable pub use Floats.{float_of_int}
pub use Texts.{Text, codes, text_eq, is_space, strip_left, text_eq_refl, eq_of_text_eq}
unfoldable pub use Texts.{strip, upper}
unfoldable pub use Int.{◌+ℤ◌, ◌-ℤ◌}
pub use Int.{
  ℤ, pos, negsuc, pos_part, neg_part, sub_ℕ, dist, ◌≤ℤ◌, ◌<ℤ◌, ltb_ℤ, eqb_ℤ, +ℤ_parts, -ℤ_parts,
  eq_of_parts, ne_of_dist, dist_pos, int_laws,
}
pub use Prim.Native.Nat.{ℕ, zero, suc, ◌+◌, ◌-◌, ◌*◌, ◌/◌, ◌%◌, ◌^◌, ◌≤◌, ◌<◌, max, min}
pub use mathlib.Core.Path.{◌≡◌, refl, sym, ap, subst, ◌∙◌}
pub use mathlib.Core.Logic.{◌≢◌, ◌↔◌, ◌⊎◌, inl, inr}
pub use mathlib.Core.Bool.{Bool, true, false, not, ◌&&◌, ◌||◌}
pub use mathlib.Core.Option.{Option, none, some}
pub use mathlib.Core.List.{List, [], ◌∷◌, ◌++◌, map, reverse}
pub use native.Mathlib.Omega.{arith}
