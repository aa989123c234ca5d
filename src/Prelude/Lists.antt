-- ===== src/Prelude/Lists.antt =====
-- Lists measured by native numbers, Boolean quantifiers that run, and predicates by recursion.
use native.Mathlib.Omega.{arith}
use mathlib.Core.Path.{◌≡◌, refl}
use Prim.Native.Nat.{ℕ, zero, suc}
use mathlib.Core.Bool.{Bool, true, false, ◌&&◌, ◌||◌}
use mathlib.Core.List.{List, [], ◌∷◌}
use mathlib.Core.Option.{Option, none, some}
use chamber_ctl.Prelude.Tests.{if◌then◌else◌, Bool-cases}
use mathlib.Core.Logic.{◌⊎◌, inl, inr}

module _ {ℓ} {A : Type ℓ} where
  abbrev pub length : List A → ℕ
  length [] = 0
  length (x ∷ xs) = suc (length xs)

  abbrev pub get_elem? : List A → ℕ → Option A
  get_elem? [] i = none
  get_elem? (x ∷ xs) zero = some x
  get_elem? (x ∷ xs) (suc i) = get_elem? xs i

  -- A write out of bounds changes nothing.
  abbrev pub set : List A → ℕ → A → List A
  set [] i v = []
  set (x ∷ xs) zero v = v ∷ xs
  set (x ∷ xs) (suc i) v = x ∷ set xs i v

  -- Python's `any(p(x) for x in xs)` and `all(...)`.
  abbrev pub any : (A → Bool) → List A → Bool
  any p [] = false
  any p (x ∷ xs) = p x || any p xs

  abbrev pub all : (A → Bool) → List A → Bool
  all p [] = true
  all p (x ∷ xs) = p x && all p xs

  -- `[x for x in xs if p(x)]`
  abbrev pub select : (A → Bool) → List A → List A
  select p [] = []
  select p (x ∷ xs) = let rest = select p xs in if p x then x ∷ rest else rest

  -- `next((x for x in xs if p(x)), None)`
  abbrev pub find_first : (A → Bool) → List A → Option A
  find_first p [] = none
  find_first p (x ∷ xs) = let rest = find_first p xs in if p x then some x else rest

  abbrev pub All {κ} : (A → Type κ) → List A → Type κ
  All P [] = Unit
  All P (x ∷ xs) = P x × All P xs

  pub select-nil : (p : A → Bool) (l : List A) → select p l ≡ [] → All (λ a. p a ≡ false) l
  select-nil p [] e = tt
  select-nil p (a ∷ l) e = ground (arith, select-nil p l)

  pub select-All : (p : A → Bool) (l : List A) → All (λ a. p a ≡ true) l → select p l ≡ l
  select-All p [] h = refl
  select-All p (a ∷ l) h = ground (arith, select-All p l)

  pub find_first-none :
      (p : A → Bool) (l : List A) → find_first p l ≡ none → All (λ a. p a ≡ false) l
  find_first-none p [] e = tt
  find_first-none p (a ∷ l) e = ground (arith, find_first-none p l)

module _ {ℓ} {A : Type ℓ} where
  pub List-cases : (l : List A) → (l ≡ []) ⊎ ((a : A) × (r : List A) × (l ≡ a ∷ r))
  List-cases [] = inl refl
  List-cases (a ∷ r) = inr (a, r, refl)

  pub All-map {κ μ} :
      {P : A → Type κ} {Q : A → Type μ} (l : List A) → ((a : A) → P a → Q a) → All P l → All Q l
  All-map [] f h = tt
  All-map (a ∷ l) f h = (f a h.0, All-map l f h.1)

  pub select-keeps {κ} : (P : A → Type κ) (p : A → Bool) (l : List A) → All P l → All P (select p l)
  select-keeps P p [] h = tt
  select-keeps P p (a ∷ l) h = elim (Bool-cases (p a)) [
    | inl chosen ↦ rw chosen (h.0, select-keeps P p l h.1)
    | inr skipped ↦ rw skipped (select-keeps P p l h.1)
  ]
