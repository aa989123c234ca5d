-- ===== src/Stage/Tests.antt =====
-- The stage's theorems at concrete inputs, and what the code of
-- sample-stage-ctl/src/sample_stage_ctl does on them.
use chamber_ctl.Stage.Stepper.Safe.{
  StepperEvent, homes, aims, permits, meets_switch, stepper_events, steps_never_raise,
}
use chamber_ctl.Stage.Driver.Shutdown.{shutdown_final}
use chamber_ctl.Stage.Driver.{
  StepperController, Event, works, clears, cuts, ordered, move, run, step, work, work_in,
  each_stepper, asks, permits_at, on_stepper, update_at, close, disable_now, forbid_from, obey,
  enabling, permitting, finished, advances,
}
use chamber_ctl.Prelude.{
  ◌+◌, ◌*◌, ◌≡◌, refl, List, [], ◌∷◌, true, false, some, none, pos, negsuc, ◌≤ℤ◌, ◌<ℤ◌, dist, arith,
  ◌⊎◌, any, ◌≢◌, ne_of_dist, ℕ, ◌-◌, ltb_ℤ, ◌++◌,
}
use chamber_ctl.Stage.Stepper.{
  Stepper, advance_once, advance_times, trig_home, set_can_move, face_target, speed_limit, backward,
  pulse, same_direction, direction_to, make_stepper, has_raised, set_target,
}
use chamber_ctl.Stage.Stepper.Motion.{advance_once-nearer, advance_once_velocity, CanStep}
use chamber_ctl.Stage.Stepper.Homing.{homing_completes, advance_once-braking, IsSeeking}

-- The linear axis, told to seek its switch a long way back.
abbrev pub seeking : Stepper
seeking = record {
  max_velocity = 20000;
  acceleration = 20000;
  homing_active = true;
  home_triggered = false;
  home_position = none;
  homing_speed = pos 2000;
  can_move = true;
  target = negsuc 9999;
  position = negsuc 499;
  motion_start_position = pos 0;
  motion_direction = backward;
  current_velocity = pos 4000000;
  braking = false;
}

-- The switch reports: from 2000 steps a second the motor takes 100 steps to stop.
trig_home-seeking :
    let s = trig_home seeking in
    (s.position ≡ pos 100)
    × (s.target ≡ pos 0)
    × (s.home_position ≡ some (negsuc 499))
    × (s.braking ≡ true)
unfolding trig_home
trig_home-seeking = (refl, refl, refl, refl)

seeking_away : seeking.position ≢ seeking.target
seeking_away = ne_of_dist (negsuc 499) (negsuc 9999) {n = 9499} refl

advance_once-nearer_example :
    let s' = (advance_once seeking).0 in
    (dist s'.position (negsuc 9999) + 1 ≡ 9500) × (s'.target ≡ negsuc 9999) × (s'.can_move ≡ true)
advance_once-nearer_example = advance_once-nearer seeking refl seeking_away

advance_once_velocity_example :
    let v = (advance_once seeking).0.current_velocity in
    (v ≤ℤ speed_limit seeking)
    × (v ≤ℤ pos (20000 * (2 * dist (negsuc 499) (face_target seeking).motion_start_position + 1)))
    × (v ≤ℤ pos 379980000)
advance_once_velocity_example = advance_once_velocity seeking refl seeking_away

seeking-CanStep : CanStep seeking
seeking-CanStep = record {
  accelerates = omega arith;
  runs = omega arith;
  homes = omega arith;
  brakes_moving = λ e. cc;
}

abbrev seeks : List StepperEvent
seeks = homes true (pos 2000) ∷ aims (negsuc 9999) ∷ permits true ∷ meets_switch ∷ []

steps_never_raise_example :
    let s = stepper_events seeks (make_stepper 20000 20000) in
    (has_raised (advance_once s).1 ≡ false)
    × (s.can_move ≡ true
        → s.position ≢ s.target
        → ((advance_once s).1
            ≡ pulse (ltb_ℤ s.position s.target) (advance_once s).0.current_velocity)
          × (pos 0 <ℤ (advance_once s).0.current_velocity))
steps_never_raise_example =
    steps_never_raise 20000 20000 seeks (omega arith) (omega arith)
      (refl, (refl, (refl, (refl, tt))))

seeking-IsSeeking : IsSeeking seeking
seeking-IsSeeking = record {
  seeking = refl;
  unseen = refl;
  turning = λ e. cc;
  moving = omega arith;
}

homing_completes_example :
    (n : ℕ) × (pos 4000000 ≤ℤ pos (2 * 20000 * n))
    × (pos (2 * 20000 * (n - 1)) <ℤ pos 4000000)
    × (let found = trig_home seeking in
        let s' = advance_times n found in
        (found.target ≡ pos 0)
        × (dist found.position (pos 0) ≡ n)
        × (same_direction (direction_to found.position (pos 0)) backward ≡ true)
        × (s'.position ≡ pos 0)
        × (s'.homing_active ≡ false)
        × (s'.home_triggered ≡ false)
        × (s'.braking ≡ false)
        × (s'.home_position ≡ some (negsuc 499)))
homing_completes_example = homing_completes seeking seeking-IsSeeking seeking-CanStep refl

abbrev stopping : Stepper
stopping = record seeking {
  position = pos 100;
  target = pos 0;
  motion_start_position = pos 200;
  home_triggered = true;
  braking = true;
}

advance_once-braking_example :
    let s' = (advance_once stopping).0 in
    (s'.current_velocity ≤ℤ pos 4000000)
    × (s'.motion_direction ≡ backward)
    × ((s'.position ≡ s'.target)
        ⊎ ((s'.braking ≡ true)
            × (same_direction (direction_to s'.position s'.target) s'.motion_direction ≡ true)))
advance_once-braking_example = advance_once-braking stopping refl refl (λ e. cc) refl

-- A motor that is asked to move, whose wait for the power has just timed out when the program closes.
abbrev pub asked : StepperController
asked = record {
  steppers = record stopping { can_move = false } ∷ [];
  enabled = false;
  last_move = 0;
  pin_low = true;
  shutdown = false;
  phase = enabling;
}

abbrev driving : Unit {0}
unfolding run step work work_in each_stepper asks permits_at on_stepper update_at set_can_move close
    disable_now forbid_from advance_once face_target obey set_target
driving = tt

-- The thread goes on after `disable_now`: the power is off in the end, but the stepper may move, and
-- the motors are marked enabled.
late_permission :
    let c =
      run
        (works 7
          ∷ (close asked.steppers ++ works 8 ∷ works 9 ∷ works 10 ∷ works 11 ∷ works 12 ∷ []))
        asked in
    (c.phase ≡ finished)
    × (c.pin_low ≡ false)
    × (c.enabled ≡ true)
    × (any (λ s. s.can_move) c.steppers ≡ true)
unfolding driving
late_permission = (refl, refl, refl, refl)

abbrev closing : StepperController
closing = record asked { shutdown = true; phase = permitting 0 }

abbrev last_steps : List Event
last_steps =
    works 1
    ∷ works 2
    ∷ clears
    ∷ works 3
    ∷ advances 0
    ∷ works 4
    ∷ ordered 0 (move (pos 9))
    ∷ works 5
    ∷ works 6
    ∷ works 7
    ∷ works 8
    ∷ works 9
    ∷ works 10
    ∷ works 11
    ∷ works 12
    ∷ []

shutdown_final_example :
    let d = run last_steps (step cuts closing) in (d.phase ≡ finished) × (d.pin_low ≡ false)
shutdown_final_example = shutdown_final closing last_steps refl (omega arith)
