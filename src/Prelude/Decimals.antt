-- ===== src/Prelude/Decimals.antt =====
-- Python's `str(n)` and `int(text)` of integers, on ASCII text.
use native.Mathlib.Omega.{arith}
use mathlib.Core.Path.{◌≡◌, refl, ap, ◌∙◌}
use Prim.Native.Nat.{ℕ, zero, suc, ◌+◌, ◌-◌, ◌*◌, ◌/◌, ◌%◌, ◌≤◌, ◌<◌}
use mathlib.Core.Bool.{Bool, true, false, ◌&&◌, ◌||◌}
use mathlib.Core.List.{[], ◌∷◌}
use mathlib.Core.Option.{Option, none, some}
use mathlib.Core.Logic.{inl, inr}
use chamber_ctl.Prelude.Tests.{Bool-cases, ltb, leb, ◌==◌, if◌then◌else◌}
use chamber_ctl.Prelude.Lists.{All, All-map}
use chamber_ctl.Prelude.Split.{strip-solid}
use chamber_ctl.Prelude.Int.{ℤ, pos, negsuc}
use chamber_ctl.Prelude.Texts.{Text, is_space, strip}

-- The digits of `n` before `out`; `n` rounds are enough.
unfoldable pub show_digits : (fuel : ℕ) → ℕ → Text → Text
show_digits zero n out = out
show_digits (suc fuel) n out = elim (n == 0) [
  | true ↦ out
  | false ↦ show_digits fuel (n / 10) ((48 + n % 10) ∷ out)
]

unfoldable pub show_nat : ℕ → Text
unfolding show_digits
show_nat n = if n == 0 then 48 ∷ [] else show_digits n n []

unfoldable pub show_int : ℤ → Text
show_int (pos n) = show_nat n
show_int (negsuc n) = 45 ∷ show_nat (suc n)

abbrev pub is_digit : ℕ → Bool
is_digit c = leb 48 c && leb c 57

-- Digits, with single underscores between them; `last` says that the character before is a digit.
unfoldable pub read_digits : (last : Bool) → ℕ → Text → Option ℕ
read_digits last n [] = if last then some n else none
read_digits last n (c ∷ cs) =
    let more = read_digits (is_digit c) (if is_digit c then n * 10 + (c - 48) else n) cs in
    if is_digit c || (c == 95 && last) then more else none

abbrev pub negated : ℕ → ℤ
negated zero = pos zero
negated (suc n) = negsuc n

abbrev pub read_signed : Text → Option ℤ
read_signed [] = none
read_signed (c ∷ cs) =
    let signed = read_digits false 0 cs in
    let plain = read_digits false 0 (c ∷ cs) in
    if c == 45
    then elim signed [ some n ↦ some (negated n) | none ↦ none ]
    else elim (if c == 43 then signed else plain) [ some n ↦ some (pos n) | none ↦ none ]

-- `int(text)`, where none is its ValueError.
unfoldable pub read_int : Text → Option ℤ
unfolding read_digits strip
read_int text = read_signed (strip text)

read_digits-digit :
    (last : Bool) (m d : ℕ) (out : Text)
    → d < 10
    → read_digits last m ((48 + d) ∷ out) ≡ read_digits true (m * 10 + d) out
unfolding read_digits
read_digits-digit last m d out h =
    let digit : is_digit (48 + d) ≡ true = ground arith in
    let value : 48 + d - 48 ≡ d = omega arith in rw (digit, value) refl

read_digits-end : (n : ℕ) → read_digits true n [] ≡ some n
unfolding read_digits
read_digits-end n = refl

read-show_digits :
    (fuel n : ℕ) (out : Text)
    → n ≤ fuel
    → read_digits false 0 (show_digits fuel n out) ≡ read_digits (ltb 0 n) n out
unfolding show_digits
read-show_digits zero n out h = let e : n ≡ 0 = omega arith in rw e refl
read-show_digits (suc fuel) n out h = elim (Bool-cases (n == 0)) [
  | inl none_left ↦ let e : n ≡ 0 = ground arith in rw e refl
  | inr some_left ↦
      let whole : n / 10 * 10 + n % 10 ≡ n = omega arith in
      let positive : ltb 0 n ≡ true = ground arith in
      rw (some_left, positive, show_digits)
        (read-show_digits fuel (n / 10) ((48 + n % 10) ∷ out) (ground arith)
          ∙ read_digits-digit (ltb 0 (n / 10)) (n / 10) (n % 10) out (omega arith)
          ∙ ap (λ m. read_digits true m out) whole)
]

pub read-show_nat : (n : ℕ) → read_digits false 0 (show_nat n) ≡ some n
unfolding show_nat
read-show_nat n = elim (Bool-cases (n == 0)) [
  | inl nothing ↦
      let e : n ≡ 0 = ground arith in
      rw (nothing, e) (read_digits-digit false 0 0 [] (omega arith) ∙ read_digits-end 0)
  | inr positive ↦
      let above : ltb 0 n ≡ true = ground arith in
      rw positive (read-show_digits n n [] (omega arith) ∙ rw above (read_digits-end n))
]

abbrev pub IsNumeral : ℕ → Type 0
IsNumeral c = is_digit c ≡ true

show_digits-IsNumeral :
    (fuel n : ℕ) (out : Text) → All IsNumeral out → All IsNumeral (show_digits fuel n out)
unfolding show_digits
show_digits-IsNumeral zero n out h = h
show_digits-IsNumeral (suc fuel) n out h = elim (Bool-cases (n == 0)) [
  | inl none_left ↦ rw (none_left, show_digits) h
  | inr some_left ↦
      rw (some_left, show_digits) (show_digits-IsNumeral fuel (n / 10) _ (ground arith, h))
]

pub show_nat-IsNumeral : (n : ℕ) → All IsNumeral (show_nat n)
unfolding show_nat
show_nat-IsNumeral n = elim (Bool-cases (n == 0)) [
  | inl nothing ↦ rw nothing (ground arith, tt)
  | inr positive ↦ rw positive (show_digits-IsNumeral n n [] tt)
]

-- No white space, comma or semicolon stands in a number.
abbrev pub IsPlain : ℕ → Type 0
IsPlain c = (is_space c ≡ false) × ((c == 44) ≡ false) × ((c == 59) ≡ false)

numeral-IsPlain : (c : ℕ) → IsNumeral c → IsPlain c
numeral-IsPlain c h = ground arith

pub show_int-IsPlain : (z : ℤ) → All IsPlain (show_int z)
unfolding show_int
show_int-IsPlain (pos n) = All-map (show_nat n) numeral-IsPlain (show_nat-IsNumeral n)
show_int-IsPlain (negsuc n) =
    (ground arith, All-map (show_nat (suc n)) numeral-IsPlain (show_nat-IsNumeral (suc n)))

read_signed-numeral :
    (t : Text) (n : ℕ)
    → All IsNumeral t
    → read_digits false 0 t ≡ some n
    → read_signed t ≡ some (pos n)
unfolding read_digits
read_signed-numeral [] n h e = cc
read_signed-numeral (c ∷ t) n h e =
    let unsigned : (c == 45) ≡ false = ground (arith, h.0) in
    let unplus : (c == 43) ≡ false = ground (arith, h.0) in rw (unsigned, unplus, e) refl

read_signed-show_int : (z : ℤ) → read_signed (show_int z) ≡ some z
unfolding show_int
read_signed-show_int (pos n) =
    read_signed-numeral (show_nat n) n (show_nat-IsNumeral n) (read-show_nat n)
read_signed-show_int (negsuc n) = rw (read-show_nat (suc n)) refl

-- `int(str(z))` is `z`.
pub read-show_int : (z : ℤ) → read_int (show_int z) ≡ some z
unfolding read_int
read-show_int z =
    rw (strip-solid (show_int z) (All-map (show_int z) (λ c p. p.0) (show_int-IsPlain z)))
      (read_signed-show_int z)
