-- ===== src/Stage/Client/Seen.antt =====
-- What class StepperClient, src/chamber_ctl/subsystems/sample_motion.py, has of the axes of a status.
use chamber_ctl.Stage.Stepper.{Stepper, is_moving}
use chamber_ctl.Stage.Client.{StepperClient}
use chamber_ctl.Prelude.{
  some, [], ◌∷◌, true, false, pos, zero, suc, refl, ℕ, List, ℤ, arith, ◌≡◌, put_key, get_elem?,
  eqb_ℤ, ◌∙◌, eq_of_parts, get_key, ◌<◌, ◌+◌, get-put_other, subst, get-put_key,
}

-- The client after it has read the fields of the steppers from number `i` on.
unfoldable pub seen_steppers : ℕ → List Stepper → StepperClient → StepperClient
seen_steppers i [] c = c
seen_steppers i (s ∷ steppers) c = seen_steppers (suc i) steppers (record c {
  positions = put_key eqb_ℤ (pos i) s.position c.positions;
  moving = put_key eqb_ℤ (pos i) (is_moving s) c.moving;
  home_positions = put_key eqb_ℤ (pos i) s.home_position c.home_positions;
})

eqb_ℤ-self : (z : ℤ) → eqb_ℤ z z ≡ true
eqb_ℤ-self z = ground arith

eqb_ℤ-eq : (a b : ℤ) → eqb_ℤ a b ≡ true → a ≡ b
eqb_ℤ-eq a b h = eq_of_parts a b (ground arith)

-- What the client has of an axis.
abbrev pub Shows : StepperClient → ℕ → Stepper → Type 0
Shows c j s =
    (get_key eqb_ℤ (pos j) c.positions ≡ some s.position)
    × (get_key eqb_ℤ (pos j) c.moving ≡ some (is_moving s))
    × (get_key eqb_ℤ (pos j) c.home_positions ≡ some s.home_position)

seen-Shows :
    (j i : ℕ) (l : List Stepper) (c : StepperClient) (s : Stepper)
    → j < i
    → Shows c j s
    → Shows (seen_steppers i l c) j s
unfolding seen_steppers
seen-Shows j i [] c s h p = p
seen-Shows j i (t ∷ l) c s h p =
    let apart : eqb_ℤ (pos i) (pos j) ≡ false = ground arith in
    seen-Shows j (suc i) l _ s (omega arith) (
      get-put_other eqb_ℤ eqb_ℤ-self eqb_ℤ-eq (pos i) (pos j) t.position c.positions apart ∙ p.0,
      get-put_other eqb_ℤ eqb_ℤ-self eqb_ℤ-eq (pos i) (pos j) (is_moving t) c.moving apart ∙ p.1,
      get-put_other eqb_ℤ eqb_ℤ-self eqb_ℤ-eq (pos i) (pos j) t.home_position c.home_positions apart
          ∙ p.2,
    )

seen-all :
    (k i : ℕ) (l : List Stepper) (c : StepperClient) (s : Stepper)
    → get_elem? l k ≡ some s
    → Shows (seen_steppers i l c) (i + k) s
unfolding seen_steppers
seen-all k i [] c s e = cc
seen-all zero i (t ∷ l) c s e =
    let same : t ≡ s = ground arith in
    let index : i ≡ i + 0 = omega arith in
    subst (Shows (seen_steppers i (t ∷ l) c) (i + 0)) same (
      subst (λ j. Shows (seen_steppers i (t ∷ l) c) j t) index
        (seen-Shows i (suc i) l _ t (omega arith) (
          get-put_key eqb_ℤ eqb_ℤ-self eqb_ℤ-eq (pos i) t.position c.positions,
          get-put_key eqb_ℤ eqb_ℤ-self eqb_ℤ-eq (pos i) (is_moving t) c.moving,
          get-put_key eqb_ℤ eqb_ℤ-self eqb_ℤ-eq (pos i) t.home_position c.home_positions,
        )))
seen-all (suc k) i (t ∷ l) c s e =
    let index : suc i + k ≡ i + suc k = omega arith in
    subst (λ j. Shows (seen_steppers i (t ∷ l) c) j s) index (seen-all k (suc i) l _ s e)

pub seen-first :
    (j : ℕ) (l : List Stepper) (c : StepperClient) (s : Stepper)
    → get_elem? l j ≡ some s
    → Shows (seen_steppers 0 l c) j s
seen-first j l c s found =
    let index : 0 + j ≡ j = omega arith in
    subst (λ k. Shows (seen_steppers 0 l c) k s) index (seen-all j 0 l c s found)

pub seen-kept :
    (i : ℕ) (l : List Stepper) (k : StepperClient)
    → ((seen_steppers i l k).last_ack_seq ≡ k.last_ack_seq)
      × ((seen_steppers i l k).enabled ≡ k.enabled)
unfolding seen_steppers
seen-kept i [] k = (refl, refl)
seen-kept i (s ∷ l) k = seen-kept (suc i) l _
