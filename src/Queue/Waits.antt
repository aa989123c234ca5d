-- ===== src/Queue/Waits.antt =====
-- The waits for the exposure controller end: class ExposureQueueSubsystem of
-- src/chamber_ctl/subsystems/experiment_sequencer.py.
use chamber_ctl.Queue.Bus.{Bus, wait_rounds, wait_event_completion}
use chamber_ctl.Prelude.{
  ℕ, zero, suc, Bool, false, ◌≡◌, ◌&&◌, ltb, ◌-◌, ◌+◌, ◌<◌, ◌≤◌, arith, refl, true, Bool-cases, inl,
  inr, ◌⊎◌,
}

elim-known {ℓ κ} :
    {A : Type ℓ} (P : A → Type κ) (condition : Bool) {x y : A}
    → (condition ≡ true → P x)
    → (condition ≡ false → P y)
    → P (elim condition [ true ↦ x | false ↦ y ])
elim-known P true p q = p refl
elim-known P false p q = q refl

module _ {W H : Type 0} (bus : Bus W H) where
  -- The condition of the loop.
  abbrev pub is_waiting : H → (timeout begin : ℕ) → W → Bool
  is_waiting handle timeout begin w =
      bus.is_in_progress handle w && ltb (bus.monotonic w - begin) timeout

  late-is_waiting :
      (handle : H) (timeout begin : ℕ) (w : W)
      → timeout ≤ bus.monotonic w - begin
      → is_waiting handle timeout begin w ≡ false
  late-is_waiting handle timeout begin w late = ground arith

  wait_rounds-done :
      ((w : W) → bus.monotonic w < bus.monotonic (bus.sleep 100 w))
      → (fuel : ℕ) (handle : H) (timeout begin : ℕ) (w : W) → begin ≤ bus.monotonic w
      → timeout < fuel + (bus.monotonic w - begin)
      → is_waiting handle timeout begin (wait_rounds bus fuel handle timeout begin w) ≡ false
  unfolding wait_rounds
  wait_rounds-done later zero handle timeout begin w started enough =
      late-is_waiting handle timeout begin w (omega arith)
  wait_rounds-done later (suc fuel) handle timeout begin w started enough =
      let goes_on = later w in
      elim-known (λ v. is_waiting handle timeout begin v ≡ false)
        (is_waiting handle timeout begin w)
        (λ waits.
          wait_rounds-done later fuel handle timeout begin (bus.sleep 100 w) (omega arith)
            (omega arith))
        (λ over. over)

  wait_rounds_same :
      ((w : W) → bus.monotonic w < bus.monotonic (bus.sleep 100 w))
      → (f g : ℕ) (handle : H) (timeout begin : ℕ) (w : W) → begin ≤ bus.monotonic w
      → timeout < f + (bus.monotonic w - begin)
      → timeout < g + (bus.monotonic w - begin)
      → wait_rounds bus f handle timeout begin w ≡ wait_rounds bus g handle timeout begin w
  unfolding wait_rounds
  wait_rounds_same later zero zero handle timeout begin w started enough more = refl
  wait_rounds_same later zero (suc g) handle timeout begin w started enough more =
      let over = late-is_waiting handle timeout begin w (omega arith) in rw (over, wait_rounds) refl
  wait_rounds_same later (suc f) zero handle timeout begin w started enough more =
      let over = late-is_waiting handle timeout begin w (omega arith) in rw (over, wait_rounds) refl
  wait_rounds_same later (suc f) (suc g) handle timeout begin w started enough more =
      let goes_on = later w in
      elim (Bool-cases (is_waiting handle timeout begin w)) [
        | inl waits ↦
            rw (waits, wait_rounds)
              (wait_rounds_same later f g handle timeout begin (bus.sleep 100 w)
                (omega (arith, goes_on)) (omega (arith, goes_on)) (omega (arith, goes_on)))
        | inr over ↦ rw (over, wait_rounds) refl
      ]

  -- If every sleep takes time, the loop of a wait ends by itself: with any fuel above the timeout it
  -- is left in the same world, and there the event is over or the timeout has passed.
  pub wait_event_completion_ends :
      ((w : W) → bus.monotonic w < bus.monotonic (bus.sleep 100 w))
      → (fuel : ℕ) (handle : H) (timeout : ℕ) (w : W) → timeout < fuel
      → let left = (wait_event_completion bus handle timeout w).1 in
        (wait_rounds bus fuel handle timeout (bus.monotonic w) w ≡ left)
        × ((bus.is_in_progress handle left ≡ false)
            ⊎ (timeout ≤ bus.monotonic left - bus.monotonic w))
  unfolding wait_event_completion
  wait_event_completion_ends later fuel handle timeout w enough =
      let left =
        wait_rounds-done later (timeout + 1) handle timeout (bus.monotonic w) w (omega arith)
          (omega arith) in
      (
        wait_rounds_same later fuel (timeout + 1) handle timeout (bus.monotonic w) w (omega arith)
            (omega arith) (omega arith),
        ground (arith, left),
      )
