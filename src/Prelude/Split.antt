-- ===== src/Prelude/Split.antt =====
-- `sep.join(words)` and `text.split(sep)` with a separator of one character, and what `strip` leaves
-- alone.
use native.Mathlib.Omega.{arith}
use mathlib.Core.Path.{◌≡◌, refl, ap, ◌∙◌}
use Prim.Native.Nat.{ℕ}
use mathlib.Core.Bool.{true, false}
use mathlib.Core.List.{
  append_assoc, List, [], ◌∷◌, ◌++◌, reverse, reverse_aux, reverse-reverse, append_assoc,
}
use chamber_ctl.Prelude.Tests.{◌==◌, if◌then◌else◌}
use chamber_ctl.Prelude.Lists.{All}
use chamber_ctl.Prelude.Texts.{Text, is_space, strip_left, strip}

abbrev pub push_front : ℕ → List Text → List Text
push_front c [] = (c ∷ []) ∷ []
push_front c (word ∷ words) = (c ∷ word) ∷ words

unfoldable pub split : ℕ → Text → List Text
split sep [] = [] ∷ []
split sep (c ∷ cs) = let rest = split sep cs in if c == sep then [] ∷ rest else push_front c rest

unfoldable pub join : ℕ → List Text → Text
join sep [] = []
join sep (word ∷ []) = word
join sep (word ∷ next ∷ words) = word ++ sep ∷ join sep (next ∷ words)

abbrev pub Lacks : ℕ → Text → Type 0
Lacks sep = All (λ c. (c == sep) ≡ false)

split-word : (sep : ℕ) (word : Text) → Lacks sep word → split sep word ≡ word ∷ []
unfolding split
split-word sep [] h = refl
split-word sep (c ∷ word) h = rw (h.0, split-word sep word h.1) refl

split-append :
    (sep : ℕ) (word rest : Text)
    → Lacks sep word
    → split sep (word ++ sep ∷ rest) ≡ word ∷ split sep rest
unfolding split
split-append sep [] rest h = let same : (sep == sep) ≡ true = ground arith in rw same refl
split-append sep (c ∷ word) rest h = rw (h.0, split-append sep word rest h.1) refl

-- Words without the separator are found again.
pub split-join :
    (sep : ℕ) (word : Text) (words : List Text)
    → All (Lacks sep) (word ∷ words)
    → split sep (join sep (word ∷ words)) ≡ word ∷ words
unfolding join
split-join sep word [] h = split-word sep word h.0
split-join sep word (next ∷ words) h =
    split-append sep word (join sep (next ∷ words)) h.0
    ∙ ap (λ rest. word ∷ rest) (split-join sep next words h.1)

-- The same with a separator behind the last word, which is then an empty one.
pub split-closed :
    (sep : ℕ) (word : Text) (words : List Text)
    → All (Lacks sep) (word ∷ words)
    → split sep (join sep (word ∷ words) ++ sep ∷ []) ≡ word ∷ words ++ [] ∷ []
unfolding join
split-closed sep word [] h =
    split-append sep word [] h.0 ∙ ap (λ l. word ∷ l) (split-word sep [] tt)
split-closed sep word (next ∷ words) h =
    ap (split sep) (append_assoc word (sep ∷ join sep (next ∷ words)) (sep ∷ []))
    ∙ split-append sep word (join sep (next ∷ words) ++ sep ∷ []) h.0
    ∙ ap (λ l. word ∷ l) (split-closed sep next words h.1)

abbrev pub IsSolid : Text → Type 0
IsSolid = All (λ c. is_space c ≡ false)

strip_left-solid : (t : Text) → IsSolid t → strip_left t ≡ t
strip_left-solid [] h = refl
strip_left-solid (c ∷ t) h = rw (h.0) refl

module _ {ℓ κ} {A : Type ℓ} (P : A → Type κ) where
  pub All-append : (l r : List A) → All P l → All P r → All P (l ++ r)
  All-append [] r h g = g
  All-append (a ∷ l) r h g = (h.0, All-append l r h.1 g)

  pub All-reverse_aux : (l r : List A) → All P l → All P r → All P (reverse_aux l r)
  All-reverse_aux [] r h g = g
  All-reverse_aux (a ∷ l) r h g = All-reverse_aux l (a ∷ r) h.1 (h.0, g)

-- Text without white space is not stripped.
pub strip-solid : (t : Text) → IsSolid t → strip t ≡ t
unfolding strip
strip-solid t h =
    rw (strip_left-solid t h, strip_left-solid (reverse t) (All-reverse_aux _ t [] h tt))
      (reverse-reverse t)
