-- ===== src/Stage/Driver/Shutdown.antt =====
-- The power of the motors after the shutdown: StepperController of
-- sample-stage-ctl/src/sample_stage_ctl/controller.py.
use chamber_ctl.Stage.Driver.Ending.{
  steps_left, steps_left-bounded, no_steps_left, works_of, works_of-cons, step-nearer,
}
use chamber_ctl.Prelude.{
  ℕ, ◌+◌, ◌-◌, ◌*◌, ◌≤◌, ◌≡◌, List, [], ◌∷◌, length, get_elem?, arith, refl, Option-cases,
  Bool-cases, inl, inr, Bool, true, false, subst, ◌∙◌, sym,
}
use chamber_ctl.Stage.Driver.{
  Phase, waiting, noting, powering, enabling, marking, disabling, cutting, clearing, stop_cutting,
  stop_clearing, finished, asking, permitting, forbidding, stopping, testing, resting,
  StepperController, each_stepper, asks, work_in, permits_at, on_stepper, step, Event, run, work,
  works, cuts, ordered, advances, limit_hit, forbids, shuts, clears,
}

-- The thread has seen the event, or is to see it, before it cuts the power.
abbrev cuts_later : Phase → Bool
cuts_later enabling = true
cuts_later (stopping i) = true
cuts_later stop_cutting = true
cuts_later _ = false

-- The event is set, and where the power is on the thread will cut it.
record IsDimming (c : StepperController) : Type 0 where
  shut : c.shutdown ≡ true
  dark : c.pin_low ≡ true → cuts_later c.phase ≡ true

each_stepper-stops :
    (i : ℕ) (c : StepperController) → cuts_later (each_stepper i stop_cutting stopping c) ≡ true
unfolding each_stepper
each_stepper-stops i c = ground arith

is_off :
    (c : StepperController) (p : Phase)
    → c.phase ≡ p
    → cuts_later p ≡ false
    → IsDimming c
    → c.pin_low ≡ false
is_off c p e late d =
    let dark = d.dark in
    let here = subst (λ x. cuts_later x ≡ false) (sym e) late in
    elim (Bool-cases c.pin_low) [ inl on ↦ cc (dark on, here) | inr off ↦ off ]

asks-pin_low :
    (i : ℕ) (c : StepperController)
    → ((asks i c).pin_low ≡ c.pin_low) × ((asks i c).shutdown ≡ c.shutdown)
unfolding asks
asks-pin_low i c = elim (Option-cases (get_elem? c.steppers i)) [
  | inl e ↦ rw (e, asks) (refl, refl)
  | inr (s, e) ↦ rw (e, asks) (refl, refl)
]

work_in-IsDimming :
    (p : Phase) (now : ℕ) (c : StepperController)
    → c.phase ≡ p
    → IsDimming c
    → IsDimming (work_in p now c)
unfolding work_in permits_at on_stepper
work_in-IsDimming waiting now c e d =
    let off = is_off c waiting e refl d in record { shut = d.shut; dark = λ on. cc (off, on) }
work_in-IsDimming noting now c e d =
    let off = is_off c noting e refl d in record { shut = d.shut; dark = λ on. cc (off, on) }
work_in-IsDimming (testing moving) now c e d =
    let off = is_off c (testing moving) e refl d in
    record { shut = d.shut; dark = λ on. cc (off, on) }
work_in-IsDimming marking now c e d =
    let off = is_off c marking e refl d in record { shut = d.shut; dark = λ on. cc (off, on) }
work_in-IsDimming (resting moving) now c e d =
    let off = is_off c (resting moving) e refl d in
    record { shut = d.shut; dark = λ on. cc (off, on) }
work_in-IsDimming cutting now c e d = record { shut = d.shut; dark = λ on. cc on }
work_in-IsDimming clearing now c e d =
    let off = is_off c clearing e refl d in record { shut = d.shut; dark = λ on. cc (off, on) }
work_in-IsDimming stop_clearing now c e d =
    let off = is_off c stop_clearing e refl d in record { shut = d.shut; dark = λ on. cc (off, on) }
work_in-IsDimming (permitting i) now c e d =
    let off = is_off c (permitting i) e refl d in
    record { shut = d.shut; dark = λ on. cc (off, on) }
work_in-IsDimming (forbidding i) now c e d =
    let off = is_off c (forbidding i) e refl d in
    record { shut = d.shut; dark = λ on. cc (off, on) }
work_in-IsDimming disabling now c e d =
    let off = is_off c disabling e refl d in record { shut = d.shut; dark = λ on. cc (off, on) }
work_in-IsDimming (asking i) now c e d =
    let off = is_off c (asking i) e refl d in
    let (same, shut) = asks-pin_low i c in
    record { shut = shut ∙ d.shut; dark = λ on. cc (off, same, on) }
work_in-IsDimming powering now c e d = record { shut = d.shut; dark = λ on. refl }
work_in-IsDimming enabling now c e d =
    let shut = d.shut in record { shut = shut; dark = λ on. rw shut refl }
work_in-IsDimming (stopping i) now c e d = record {
  shut = d.shut;
  dark = λ on. each_stepper-stops i c;
}
work_in-IsDimming stop_cutting now c e d = record { shut = d.shut; dark = λ on. cc on }
work_in-IsDimming finished now c e d = d

step-IsDimming : (e : Event) (c : StepperController) → IsDimming c → IsDimming (step e c)
unfolding step work permits_at on_stepper
step-IsDimming (works now) c d = work_in-IsDimming c.phase now c refl d
step-IsDimming (ordered i order) c d = record { shut = d.shut; dark = d.dark }
step-IsDimming (advances i) c d = record { shut = d.shut; dark = d.dark }
step-IsDimming (limit_hit i) c d = record { shut = d.shut; dark = d.dark }
step-IsDimming shuts c d = record { shut = refl; dark = d.dark }
step-IsDimming (forbids i) c d = record { shut = d.shut; dark = d.dark }
step-IsDimming cuts c d = record { shut = d.shut; dark = λ on. cc on }
step-IsDimming clears c d = record { shut = d.shut; dark = d.dark }

run-ends :
    (es : List Event) (c : StepperController) (n : ℕ)
    → IsDimming c
    → length c.steppers ≡ n
    → IsDimming (run es c) × (steps_left n (run es c).phase ≤ steps_left n c.phase - works_of es)
unfolding run
run-ends [] c n d size = (d, omega arith)
run-ends (e ∷ es) c n d size =
    let (near, same) = step-nearer e c n d.shut size in
    let (end, left) = run-ends es (step e c) n (step-IsDimming e c d) same in
    let count = works_of-cons e es in (end, omega (arith, near, left, count))

-- When a thread that has set the shutdown event drives the enable pin, whatever the loop's thread was
-- doing and whatever else happens at the same time or later, the loop's thread ends within 9 steps of
-- its own and 3 for each stepper, and from then on the motors are without power.
pub shutdown_final :
    (c : StepperController) (es : List Event)
    → c.shutdown ≡ true
    → 9 + 3 * length c.steppers ≤ works_of es
    → let d = run es (step cuts c) in (d.phase ≡ finished) × (d.pin_low ≡ false)
unfolding step
shutdown_final c es h enough =
    let n = length c.steppers in
    let start = step cuts c in
    let dimming : IsDimming start = record { shut = h; dark = λ on. cc on } in
    let (end, left) = run-ends es start n dimming refl in
    let bound = steps_left-bounded n start.phase in
    let over : (run es start).phase ≡ finished =
      no_steps_left n (run es start).phase (omega (arith, left, bound)) in
    (over, is_off (run es start) finished over refl end)
