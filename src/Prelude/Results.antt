-- ===== src/Prelude/Results.antt =====
-- Python's exceptions as values: a computation raises an `E` or returns an `A`.
use mathlib.Core.Logic.{◌⊎◌, inl, inr}
use mathlib.Core.Path.{◌≡◌, refl}
use mathlib.Core.Bool.{Bool}
use chamber_ctl.Prelude.Tests.{if◌then◌else◌}

pub data Result {ℓ} (E : Type 0) (A : Type ℓ) : Type ℓ where
  err : (error : E) → Result E A
  ok : (value : A) → Result E A

infixl 5 ◌>>=◌ ◌>>◌
abbrev pub ◌>>=◌ {ℓ κ} :
    {E : Type 0} {A : Type ℓ} {B : Type κ} → Result E A → (A → Result E B) → Result E B
err raised >>= next = err raised
ok value >>= next = next value

abbrev pub ◌>>◌ {ℓ} : {E : Type 0} {B : Type ℓ} → Result E (Unit {0}) → Result E B → Result E B
check >> rest = check >>= λ _. rest

-- `if not condition: raise e`
abbrev pub guard : {E : Type 0} → Bool → E → Result E (Unit {0})
guard condition e = if condition then ok tt else err e

-- What a bind that returns has run: both parts returned.
pub >>=-ok {ℓ κ} :
    {E : Type 0} {A : Type ℓ} {B : Type κ} (part : Result E A) (next : A → Result E B) {result : B}
    → (part >>= next) ≡ ok result
    → (value : A) × (part ≡ ok value) × (next value ≡ ok result)
>>=-ok (err raised) next returned = cc
>>=-ok (ok value) next returned = (value, refl, returned)

pub Result-cases {ℓ} :
    {E : Type 0} {A : Type ℓ} (result : Result E A)
    → ((e : E) × (result ≡ err e)) ⊎ ((a : A) × (result ≡ ok a))
Result-cases (err e) = inl (e, refl)
Result-cases (ok a) = inr (a, refl)
