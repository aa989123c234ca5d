-- ===== src/Prelude/Dicts.antt =====
-- Python's dictionaries as association lists, for keys with a Boolean equality.
use mathlib.Core.Path.{◌≡◌, refl, subst, sym}
use mathlib.Core.Bool.{Bool, true, false}
use mathlib.Core.List.{List, [], ◌∷◌}
use mathlib.Core.Option.{Option, none, some}
use mathlib.Core.Logic.{inl, inr}
use chamber_ctl.Prelude.Tests.{if◌then◌else◌, Bool-cases}

module _ {ℓ κ} {K : Type ℓ} {V : Type κ} (same : K → K → Bool) where
  -- `d.get(k)`
  unfoldable pub get_key : K → List (K × V) → Option V
  get_key k [] = none
  get_key k ((key, v) ∷ d) = let later = get_key k d in if same key k then some v else later

  -- `d[k] = v`
  unfoldable pub put_key : K → V → List (K × V) → List (K × V)
  put_key k v [] = (k, v) ∷ []
  put_key k v ((key, w) ∷ d) =
      let later = put_key k v d in if same key k then (key, v) ∷ d else (key, w) ∷ later

  module _ (same_refl : (k : K) → same k k ≡ true)
      (same_eq : (a b : K) → same a b ≡ true → a ≡ b) where
    pub get-put_key : (k : K) (v : V) (d : List (K × V)) → get_key k (put_key k v d) ≡ some v
    unfolding get_key put_key
    get-put_key k v [] = rw (same_refl k) refl
    get-put_key k v ((key, w) ∷ d) = elim (Bool-cases (same key k)) [
      | inl here ↦ rw (here) (rw (here) refl)
      | inr there ↦ rw (there) (rw (there) (get-put_key k v d))
    ]

    pub get-put_other :
        (k j : K) (v : V) (d : List (K × V))
        → same k j ≡ false
        → get_key j (put_key k v d) ≡ get_key j d
    unfolding get_key put_key
    get-put_other k j v [] n = rw n refl
    get-put_other k j v ((key, w) ∷ d) n = elim (Bool-cases (same key k)) [
      | inl here ↦
          let apart : same key j ≡ false =
            subst (λ x. same x j ≡ false) (sym (same_eq key k here)) n in
          rw (here, get_key, apart) refl
      | inr there ↦ elim (Bool-cases (same key j)) [
        | inl found ↦ rw (there, get_key, found) refl
        | inr on ↦ rw (there, get_key, on) (get-put_other k j v d n)
      ]
    ]
