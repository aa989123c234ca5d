-- ===== src/Prelude/Floats.antt =====
-- Python's floats. A finite float is a whole multiple of the smallest one, 2 ** -1074, and that
-- multiple stands for it; sums are exact, so rounding and overflow are left out. Comparisons with
-- nan are false.
use Prim.Native.Nat.{suc, ◌*◌, ◌^◌}
use mathlib.Core.Bool.{Bool, true, false}
use mathlib.Core.List.{List, [], ◌∷◌}
use chamber_ctl.Prelude.Int.{ℤ, pos, ◌+ℤ◌, ◌-ℤ◌, ltb_ℤ, eqb_ℤ, negsuc}
use chamber_ctl.Prelude.Tests.{if◌then◌else◌}

pub data Float : Type 0 where
  nan pos_inf neg_inf : Float
  fin : ℤ → Float

-- `float(n)`
unfoldable pub float_of_int : ℤ → Float
float_of_int (pos n) = fin (pos (n * 2 ^ 1074))
float_of_int (negsuc n) = fin (pos 0 -ℤ pos (suc n * 2 ^ 1074))

abbrev pub is_finite : Float → Bool
is_finite (fin z) = true
is_finite _ = false

abbrev pub flt : Float → Float → Bool
flt (fin a) (fin b) = ltb_ℤ a b
flt (fin a) pos_inf = true
flt neg_inf (fin b) = true
flt neg_inf pos_inf = true
flt _ _ = false

abbrev pub feq : Float → Float → Bool
feq (fin a) (fin b) = eqb_ℤ a b
feq pos_inf pos_inf = true
feq neg_inf neg_inf = true
feq _ _ = false

abbrev pub fle : Float → Float → Bool
fle (fin a) (fin b) = if ltb_ℤ b a then false else true
fle nan b = false
fle a nan = false
fle neg_inf b = true
fle a pos_inf = true
fle _ _ = false

abbrev pub fneg : Float → Float
fneg nan = nan
fneg pos_inf = neg_inf
fneg neg_inf = pos_inf
fneg (fin a) = fin (pos 0 -ℤ a)

abbrev pub fadd : Float → Float → Float
fadd (fin a) (fin b) = fin (a +ℤ b)
fadd nan b = nan
fadd a nan = nan
fadd pos_inf neg_inf = nan
fadd neg_inf pos_inf = nan
fadd pos_inf b = pos_inf
fadd neg_inf b = neg_inf
fadd a pos_inf = pos_inf
fadd a neg_inf = neg_inf

abbrev pub fsub : Float → Float → Float
fsub (fin a) (fin b) = fin (a -ℤ b)
fsub a b = fadd a (fneg b)

abbrev pub zero_float : Float
zero_float = fin (pos 0)

-- `max(a, b)`: the first, unless the second is greater.
abbrev pub fmax : Float → Float → Float
fmax a b = if flt a b then b else a

-- `sum(xs)`
abbrev pub fsum_from : Float → List Float → Float
fsum_from acc [] = acc
fsum_from acc (x ∷ xs) = fsum_from (fadd acc x) xs
