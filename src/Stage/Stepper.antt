-- ===== src/Stage/Stepper.antt =====
-- One stepper motor: class Stepper of sample-stage-ctl/src/sample_stage_ctl/controller.py.
-- A velocity v is kept as its signed square v * |v|: the program's limits are square roots of
-- whole numbers, and min and the comparisons commute with squaring, so no root is taken.
pub mod Motion
pub mod Safe
pub mod Reserve
pub mod Homing
use chamber_ctl.Prelude.{
  ℕ, zero, suc, ◌+◌, ◌-◌, ◌*◌, ◌/◌, max, Bool, true, false, not, ◌&&◌, ◌||◌, Option, none, some, ℤ,
  pos, negsuc, pos_part, neg_part, ◌+ℤ◌, ◌-ℤ◌, dist, ltb_ℤ, eqb_ℤ, if◌then◌else◌,
}

-- `_motion_direction`: -1, 0 and 1.
pub data Direction : Type 0 where
  backward still forward : Direction

abbrev pub same_direction : Direction → Direction → Bool
same_direction backward backward = true
same_direction still still = true
same_direction forward forward = true
same_direction _ _ = false

pub record Stepper : Type 0 where
  pub max_velocity : ℕ
  pub acceleration : ℕ
  pub homing_active : Bool
  pub home_triggered : Bool
  pub home_position : Option ℤ
  pub homing_speed : ℤ
  pub can_move : Bool
  pub target : ℤ
  pub position : ℤ
  pub motion_start_position : ℤ
  pub motion_direction : Direction
  pub current_velocity : ℤ  -- the signed square
  pub braking : Bool

unfoldable pub make_stepper : ℕ → ℕ → Stepper
make_stepper max_velocity acceleration = record {
  max_velocity = max_velocity;
  acceleration = acceleration;
  homing_active = false;
  home_triggered = false;
  home_position = none;
  homing_speed = pos max_velocity;
  can_move = false;
  target = pos 0;
  position = pos 0;
  motion_start_position = pos 0;
  motion_direction = still;
  current_velocity = pos 0;
  braking = false;
}

-- `(target > position) - (target < position)`
abbrev pub direction_to : ℤ → ℤ → Direction
direction_to position target =
    if ltb_ℤ position target then forward else if ltb_ℤ target position then backward else still

abbrev pub is_moving : Stepper → Bool
is_moving s = not (eqb_ℤ s.position s.target)

abbrev pub reset_profile : Stepper → Stepper
reset_profile s = record s {
  motion_start_position = s.position;
  motion_direction = still;
  current_velocity = pos 0;
  braking = false;
}

unfoldable pub set_target : ℤ → Stepper → Stepper
set_target target s =
    let was_idle = eqb_ℤ s.position s.target in
    let new_direction = direction_to s.position target in
    let s' =
      if was_idle || not (same_direction new_direction s.motion_direction)
      then reset_profile s
      else s in
    record s' { target = target }

unfoldable pub set_can_move : Bool → Stepper → Stepper
set_can_move value s =
    let s' = record s { can_move = value } in if value then s' else reset_profile s'

unfoldable pub set_position : ℤ → Stepper → Stepper
set_position position s = reset_profile (record s { position = position })

unfoldable pub set_homing_state : Bool → ℤ → Stepper → Stepper
set_homing_state to_home speed s = record s {
  homing_active = to_home;
  homing_speed = speed;
  home_position = none;
  home_triggered = false;
  braking = false;
}

-- `v ** 2` for the velocity with this signed square.
abbrev pub square_of : ℤ → ℕ
square_of v = pos_part v + neg_part v

-- `ceil(n / (2 * acceleration))`; the acceleration is a positive constant of the program.
abbrev pub steps_to_stop : ℕ → ℕ → ℕ
steps_to_stop acceleration n = max 1 ((n + (2 * acceleration - 1)) / (2 * acceleration))

-- `direction * n` and `-direction * n`
abbrev pub ahead : Direction → ℕ → ℤ
ahead backward n = pos 0 -ℤ pos n
ahead still n = pos 0
ahead forward n = pos n

abbrev pub behind : Direction → ℕ → ℤ
behind backward n = pos n
behind still n = pos 0
behind forward n = pos 0 -ℤ pos n

abbrev pub is_still : Direction → Bool
is_still still = true
is_still _ = false

-- The limit switch closed with the motor standing.
abbrev pub home_at_rest : Stepper → Stepper
home_at_rest s =
    reset_profile (record s { position = pos 0; target = pos 0; homing_active = false })

-- The limit switch closed with the motor moving: the zero is put where it will have braked.
abbrev pub home_braking : Stepper → Stepper
home_braking s =
    let braking_steps = steps_to_stop s.acceleration (square_of s.current_velocity) in
    let position = behind s.motion_direction braking_steps in
    record s {
      position = position;
      target = pos 0;
      motion_start_position = position -ℤ ahead s.motion_direction braking_steps;
      braking = true;
    }

unfoldable pub trig_home : Stepper → Stepper
unfolding ◌-ℤ◌
trig_home s =
    if not s.homing_active || s.home_triggered
    then s
    else let s' = record s { home_position = some s.position; home_triggered = true } in
      if is_still s.motion_direction || not (ltb_ℤ (pos 0) s.current_velocity)
      then home_at_rest s'
      else home_braking s'

abbrev pub signed_square : ℤ → ℤ
signed_square (pos n) = pos (n * n)
signed_square (negsuc n) = pos 0 -ℤ pos ((n + 1) * (n + 1))

unfoldable pub min_ℤ : ℤ → ℤ → ℤ
min_ℤ a b = if ltb_ℤ b a then b else a

-- `velocity_limit`
unfoldable pub speed_limit : Stepper → ℤ
unfolding ◌-ℤ◌
speed_limit s =
    if s.homing_active then signed_square s.homing_speed else pos (s.max_velocity * s.max_velocity)

-- sqrt(2 a (d + 0.5)) from the start and sqrt(2 a (d - 0.5)) to the target, squared.
abbrev pub acceleration_velocity : Stepper → ℤ
acceleration_velocity s = pos (s.acceleration * (2 * dist s.position s.motion_start_position + 1))

abbrev pub deceleration_velocity : Stepper → ℤ
deceleration_velocity s = pos (s.acceleration * (2 * dist s.target s.position - 1))

-- The `min` of the three velocities, and of the current one while braking.
unfoldable pub capped : Bool → ℤ → ℤ → ℤ → ℤ → ℤ
unfolding min_ℤ
capped braking current limit accelerating decelerating =
    let velocity = min_ℤ (min_ℤ limit accelerating) decelerating in
    if braking then min_ℤ velocity current else velocity

abbrev pub next_velocity : Stepper → ℤ
next_velocity s =
    capped s.braking s.current_velocity (speed_limit s) (acceleration_velocity s)
      (deceleration_velocity s)

-- What one call of `_advance_once` does outside: nothing, or a pulse with the direction pin's level
-- and the velocity that gives the delay 1 / v / 2; at v = 0 that division raises, after the pulse
-- has begun.
pub data Pulse : Type 0 where
  idle : Pulse
  pulse : (level : Bool) (velocity : ℤ) → Pulse
  zero_division : (level : Bool) → Pulse

-- The new profile when the direction changes.
unfoldable pub face_target : Stepper → Stepper
face_target s =
    let direction = if ltb_ℤ s.position s.target then forward else backward in
    if same_direction direction s.motion_direction
    then s
    else record (reset_profile s) { motion_direction = direction }

abbrev pub step_position : Stepper → ℤ
step_position s = if ltb_ℤ s.position s.target then s.position +ℤ pos 1 else s.position -ℤ pos 1

abbrev pub finish_homing : Stepper → Stepper
finish_homing s =
    if eqb_ℤ s.position s.target && s.home_triggered
    then record s { homing_active = false; home_triggered = false; braking = false }
    else s

unfoldable pub advance_once : Stepper → Stepper × Pulse
unfolding ◌+ℤ◌ ◌-ℤ◌
advance_once s =
    if not s.can_move || eqb_ℤ s.position s.target
    then (s, idle)
    else let level = ltb_ℤ s.position s.target in
      let faced = face_target s in
      let velocity = next_velocity faced in
      let moved = record faced { current_velocity = velocity; position = step_position s } in
      (
        finish_homing moved,
        if eqb_ℤ velocity (pos 0) then zero_division level else pulse level velocity,
      )

-- The division by the velocity has raised, which ends the stepper's thread.
abbrev pub has_raised : Pulse → Bool
has_raised idle = false
has_raised (pulse level velocity) = false
has_raised (zero_division level) = true

-- At most `n` rounds of the thread with nothing else happening.
unfoldable pub advance_times : ℕ → Stepper → Stepper
advance_times zero s = s
advance_times (suc n) s =
    let (s', p) = advance_once s in elim (has_raised p) [ true ↦ s' | false ↦ advance_times n s' ]
