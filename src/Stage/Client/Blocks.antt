-- ===== src/Stage/Client/Blocks.antt =====
-- Each block of a status, as `__parse` of class StepperClient reads it,
-- src/chamber_ctl/subsystems/sample_motion.py.
use chamber_ctl.Stage.Stepper.{Stepper, is_moving}
use chamber_ctl.Stage.Wire.Commands.{IsWord, show_nat-IsWord, word-Lacks-comma}
use chamber_ctl.Stage.Client.{
  parse_block, is_true, StepperClient, home_of, comma, parse_tokens, parse_blocks, token,
}
use chamber_ctl.Stage.Wire.{stepper_fields, show_bool, show_home}
use chamber_ctl.Prelude.{
  ok, none, some, [], ◌∷◌, true, false, pos, negsuc, suc, refl, ℕ, Bool, Option, Text, show_int,
  List, ℤ, All, join, read_int, show_nat, arith, ◌≡◌, text_eq, is_some, put_key, show_int-IsPlain,
  codes, get_elem?, read-show_int, eqb_ℤ, ap, IsNumeral, show_nat-IsNumeral, ◌∙◌, ◌==◌, map, ◌++◌,
  ◌>>=◌, split-join, All-map,
}
use chamber_ctl.Stage.Client.Seen.{seen_steppers}

pub show_bool-IsWord : (b : Bool) → IsWord (show_bool b)
show_bool-IsWord true = ground arith
show_bool-IsWord false = ground arith

show_home-IsWord : (h : Option ℤ) → IsWord (show_home h)
show_home-IsWord none = ground arith
show_home-IsWord (some z) = show_int-IsPlain z

pub stepper_fields-IsWord : (i : ℕ) (l : List Stepper) → All (All IsWord) (stepper_fields i l)
unfolding stepper_fields
stepper_fields-IsWord i [] = tt
stepper_fields-IsWord i (s ∷ l) = (
  (ground arith, (show_nat-IsWord i, (show_int-IsPlain s.position, tt))),
  (
    (ground arith, (show_nat-IsWord i, (show_bool-IsWord (is_moving s), tt))),
    (
      (ground arith, (show_nat-IsWord i, (show_home-IsWord s.home_position, tt))),
      stepper_fields-IsWord (suc i) l,
    ),
  ),
)

pub is_true-show : (b : Bool) → is_true (show_bool b) ≡ b
is_true-show true = refl
is_true-show false = refl

-- A block of plain words with a kind is read by its words.
pub parse_block-words :
    (kind : Text) (words : List Text) (c : StepperClient)
    → is_some (get_elem? kind 0) ≡ true
    → All IsWord (kind ∷ words)
    → parse_block (join comma (kind ∷ words)) c ≡ parse_tokens kind (kind ∷ words) c
unfolding parse_block join
parse_block-words [] words c h w = cc
parse_block-words (k ∷ kind) [] c h w =
    ap (λ l. token l 0 >>= λ first. parse_tokens first l c)
      (split-join comma (k ∷ kind) [] (All-map ((k ∷ kind) ∷ []) (λ t p. word-Lacks-comma t p) w))
parse_block-words (k ∷ kind) (next ∷ words) c h w =
    ap (λ l. token l 0 >>= λ first. parse_tokens first l c)
      (split-join comma (k ∷ kind) (next ∷ words)
        (All-map ((k ∷ kind) ∷ next ∷ words) (λ t p. word-Lacks-comma t p) w))

read-show_nat_int : (i : ℕ) → read_int (show_nat i) ≡ some (pos i)
unfolding show_int
read-show_nat_int i = read-show_int (pos i)

numeral-not_none : (t : Text) → All IsNumeral t → text_eq t (codes "None") ≡ false
numeral-not_none [] h = refl
numeral-not_none (c ∷ t) h = let apart : (c == b'N') ≡ false = ground (arith, h.0) in rw apart refl

int-not_none : (z : ℤ) → text_eq (show_int z) (codes "None") ≡ false
unfolding show_int
int-not_none (pos n) = numeral-not_none (show_nat n) (show_nat-IsNumeral n)
int-not_none (negsuc n) = refl

home_of-show : (h : Option ℤ) → home_of (show_home h) ≡ ok h
home_of-show none = refl
home_of-show (some z) = cc (int-not_none z, read-show_int z)

parse-position :
    (i : ℕ) (z : ℤ) (c : StepperClient)
    → parse_block (join comma (codes "P" ∷ show_nat i ∷ show_int z ∷ [])) c
      ≡ ok (record c { positions = put_key eqb_ℤ (pos i) z c.positions })
parse-position i z c =
    parse_block-words (codes "P") (show_nat i ∷ show_int z ∷ []) c refl
      (ground arith, (show_nat-IsWord i, (show_int-IsPlain z, tt)))
    ∙ cc (read-show_nat_int i, read-show_int z)

parse-moving :
    (i : ℕ) (b : Bool) (c : StepperClient)
    → parse_block (join comma (codes "M" ∷ show_nat i ∷ show_bool b ∷ [])) c
      ≡ ok (record c { moving = put_key eqb_ℤ (pos i) b c.moving })
parse-moving i b c =
    parse_block-words (codes "M") (show_nat i ∷ show_bool b ∷ []) c refl
      (ground arith, (show_nat-IsWord i, (show_bool-IsWord b, tt)))
    ∙ cc (read-show_nat_int i, is_true-show b)

parse-home :
    (i : ℕ) (h : Option ℤ) (c : StepperClient)
    → parse_block (join comma (codes "H" ∷ show_nat i ∷ show_home h ∷ [])) c
      ≡ ok (record c { home_positions = put_key eqb_ℤ (pos i) h c.home_positions })
parse-home i h c =
    parse_block-words (codes "H") (show_nat i ∷ show_home h ∷ []) c refl
      (ground arith, (show_nat-IsWord i, (show_home-IsWord h, tt)))
    ∙ cc (read-show_nat_int i, home_of-show h)

pub parse_blocks-ok :
    (block : Text) (blocks : List Text) (c : StepperClient) {d : StepperClient}
    → parse_block block c ≡ ok d
    → parse_blocks (block ∷ blocks) c ≡ parse_blocks blocks d
unfolding parse_blocks
parse_blocks-ok block blocks c e = rw (e, parse_blocks) refl

pub parse_blocks-end : (c : StepperClient) → parse_blocks ([] ∷ []) c ≡ (c, none)
unfolding parse_blocks parse_block
parse_blocks-end c = refl

pub parse_blocks-steppers :
    (i : ℕ) (l : List Stepper) (rest : List Text) (c : StepperClient)
    → parse_blocks (map (join comma) (stepper_fields i l) ++ rest) c
      ≡ parse_blocks rest (seen_steppers i l c)
unfolding stepper_fields seen_steppers
parse_blocks-steppers i [] rest c = refl
parse_blocks-steppers i (s ∷ l) rest c =
    let later = map (join comma) (stepper_fields (suc i) l) ++ rest in
    parse_blocks-ok _ _ c (parse-position i s.position c)
    ∙ parse_blocks-ok _ _ _ (parse-moving i (is_moving s) _)
    ∙ parse_blocks-ok _ later _ (parse-home i s.home_position _)
    ∙ parse_blocks-steppers (suc i) l rest _
