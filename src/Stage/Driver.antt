-- ===== src/Stage/Driver.antt =====
-- The power and permission logic of the motors: class StepperController of
-- sample-stage-ctl/src/sample_stage_ctl/controller.py. Its thread makes one small step at a time, and
-- between any two of them any other thread may act. Times are milliseconds.
pub mod Ending
pub mod Shutdown
use chamber_ctl.Prelude.{
  ℕ, zero, suc, ◌+◌, ◌-◌, Bool, true, false, not, ◌&&◌, Option, none, some, List, [], ◌∷◌, ◌++◌,
  map, ℤ, ltb, any, if◌then◌else◌, length, get_elem?,
}
use chamber_ctl.Stage.Stepper.{
  Stepper, is_moving, set_target, set_position, set_homing_state, set_can_move, trig_home,
  advance_once,
}

abbrev pub idle_disable_ms : ℕ
idle_disable_ms = 10000

-- Where the thread stands, in the order of `_run`: in the wait at the top of the loop; asking each
-- stepper whether it moves; noting the time if one does; testing whether to power the motors; driving
-- the pin; in the wait of ENABLE_DELAY_SECONDS; permitting each stepper; marking the motors enabled;
-- testing whether they rest; forbidding each stepper; in the second wait; driving the pin; marking; the
-- steps of `disable_now` after a wait that saw the shutdown; and past its return.
pub data Phase : Type 0 where
  waiting noting powering enabling marking disabling cutting clearing : Phase
  stop_cutting stop_clearing finished : Phase
  asking permitting forbidding stopping : (stepper : ℕ) → Phase
  testing resting : (moving : Bool) → Phase

pub record StepperController : Type 0 where
  pub steppers : List Stepper
  pub enabled : Bool
  pub last_move : ℕ
  pub pin_low : Bool  -- the enable pin; LOW powers the motors
  pub shutdown : Bool  -- the shutdown event
  pub phase : Phase

-- The pin is not yet driven when the program starts; main.py drives it HIGH.
unfoldable pub make_controller : StepperController
make_controller = record {
  steppers = [];
  enabled = false;
  last_move = 0;
  pin_low = false;
  shutdown = false;
  phase = waiting;
}

unfoldable pub add_stepper : Stepper → StepperController → StepperController
add_stepper s c = record c { steppers = c.steppers ++ s ∷ [] }

unfoldable pub update_at : ℕ → (Stepper → Stepper) → List Stepper → List Stepper
update_at i f [] = []
update_at zero f (s ∷ steppers) = f s ∷ steppers
update_at (suc i) f (s ∷ steppers) = s ∷ update_at i f steppers

unfoldable pub on_stepper : ℕ → (Stepper → Stepper) → StepperController → StepperController
on_stepper i f c = record c { steppers = update_at i f c.steppers }

-- The loops over the steppers: the next of them, or what comes after the last.
unfoldable pub each_stepper : ℕ → Phase → (ℕ → Phase) → StepperController → Phase
each_stepper i after again c = if ltb i (length c.steppers) then again (i + 1) else after

unfoldable pub asks : ℕ → StepperController → StepperController
asks i c = elim (get_elem? c.steppers i) [
  | none ↦ record c { phase = testing false }
  | some s ↦ record c { phase = if is_moving s then noting else asking (i + 1) }
]

unfoldable pub permits_at : ℕ → Bool → StepperController → StepperController
unfolding on_stepper
permits_at i value c = on_stepper i (set_can_move value) c

-- The thread's next step; `now` is what its clock shows if the step reads it. A wait that ends has
-- seen whether the shutdown event is set.
unfoldable pub work_in : Phase → ℕ → StepperController → StepperController
unfolding each_stepper asks permits_at
work_in waiting now c = record c { phase = if c.shutdown then finished else asking 0 }
work_in (asking i) now c = asks i c
work_in noting now c = record c { last_move = now; phase = testing true }
work_in (testing moving) now c = record c {
  phase = if moving && not c.enabled then powering else resting moving;
}
work_in powering now c = record c { pin_low = true; phase = enabling }
work_in enabling now c = record c { phase = if c.shutdown then stopping 0 else permitting 0 }
work_in (permitting i) now c = record (permits_at i true c) {
  phase = each_stepper i marking permitting c;
}
work_in marking now c = record c { enabled = true; phase = resting true }
work_in (resting moving) now c = record c {
  phase =
      if not moving && c.enabled && ltb (c.last_move + idle_disable_ms) now
      then forbidding 0
      else waiting;
}
work_in (forbidding i) now c = record (permits_at i false c) {
  phase = each_stepper i disabling forbidding c;
}
work_in disabling now c = record c { phase = if c.shutdown then stopping 0 else cutting }
work_in cutting now c = record c { pin_low = false; phase = clearing }
work_in clearing now c = record c { enabled = false; phase = waiting }
work_in (stopping i) now c = record (permits_at i false c) {
  phase = each_stepper i stop_cutting stopping c;
}
work_in stop_cutting now c = record c { pin_low = false; phase = stop_clearing }
work_in stop_clearing now c = record c { enabled = false; phase = finished }
work_in finished now c = c

unfoldable pub work : ℕ → StepperController → StepperController
unfolding work_in
work now c = work_in c.phase now c

-- What the network thread asks of one stepper.
pub data Order : Type 0 where
  move : (target : ℤ) → Order
  put : (position : ℤ) → Order
  home : (state : Bool) (speed : ℤ) → Order

unfoldable pub obey : Order → Stepper → Stepper
obey (move target) s = set_target target s
obey (put position) s = set_position position s
obey (home state speed) s = set_homing_state state speed s

-- What can happen next: a step of the loop's thread, an order from the network thread, a round of a
-- stepper's thread, a report of the limit switch, the shutdown event set by `close` or a failure, and
-- the steps of a `disable_now` of another thread, which forbids each stepper, drives the pin and marks.
pub data Event : Type 0 where
  works : (now : ℕ) → Event
  ordered : (stepper : ℕ) → Order → Event
  advances : (stepper : ℕ) → Event
  limit_hit : (stepper : ℕ) → Event
  shuts : Event
  forbids : (stepper : ℕ) → Event
  cuts clears : Event

unfoldable pub step : Event → StepperController → StepperController
unfolding permits_at on_stepper
step (works now) c = work now c
step (ordered i order) c = on_stepper i (obey order) c
step (advances i) c = on_stepper i (λ s. (advance_once s).0) c
step (limit_hit i) c = on_stepper i trig_home c
step shuts c = record c { shutdown = true }
step (forbids i) c = permits_at i false c
step cuts c = record c { pin_low = false }
step clears c = record c { enabled = false }

unfoldable pub run : List Event → StepperController → StepperController
run [] c = c
run (e ∷ es) c = run es (step e c)

-- `disable_now` and `close` before the join, of a thread that nothing interrupts.
unfoldable pub forbid_from : ℕ → List Stepper → List Event
forbid_from i [] = []
forbid_from i (s ∷ steppers) = forbids i ∷ forbid_from (i + 1) steppers

unfoldable pub disable_now : List Stepper → List Event
disable_now steppers = forbid_from 0 steppers ++ cuts ∷ clears ∷ []

unfoldable pub close : List Stepper → List Event
close steppers = shuts ∷ disable_now steppers
