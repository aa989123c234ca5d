-- ===== src/Stage/Stepper/Homing.antt =====
-- Finding the home switch: Stepper.trig_home and the end of homing in Stepper._advance_once,
-- sample-stage-ctl/src/sample_stage_ctl/controller.py.
use chamber_ctl.Stage.Stepper.Reserve.{steps_to_stop_least}
use chamber_ctl.Stage.Stepper.Safe.{
  has_raised-advance_once, advance_once-CanStep, trig_home-CanStep,
}
use chamber_ctl.Prelude.{
  ℕ, zero, suc, ◌*◌, ◌<◌, ◌≤◌, ◌≡◌, ◌∙◌, true, false, some, pos, ◌+ℤ◌, ◌-ℤ◌, ◌-◌, ℤ, ◌<ℤ◌, ◌≤ℤ◌,
  false, ◌⊎◌, dist, arith, eq_of_parts, ne_of_dist, ◌≢◌, subst,
}
use chamber_ctl.Stage.Stepper.{
  face_target, capped, speed_limit, next_velocity, finish_homing, step_position,
  acceleration_velocity, deceleration_velocity, Stepper, still, same_direction, direction_to,
  steps_to_stop, square_of, trig_home, advance_once, advance_times,
}
use chamber_ctl.Stage.Stepper.Motion.{advance_once-nearer, CanStep}

-- A second report of the switch in the same homing run, or one outside homing, changes nothing.
pub trig_home_twice : (s : Stepper) → trig_home (trig_home s) ≡ trig_home s
unfolding trig_home
trig_home_twice s = ground arith

-- What the switch finds: homing is on and it has not reported, and the motor is turning.
pub record IsSeeking (s : Stepper) : Type 0 where
  pub seeking : s.homing_active ≡ true
  pub unseen : s.home_triggered ≡ false
  pub turning : s.motion_direction ≢ still
  pub moving : pos 0 <ℤ s.current_velocity

-- The switch reported while the motor turns: the place is recorded, and the target is the new zero,
-- which lies ahead in the direction of motion, as many steps away as a stop from the current
-- velocity takes.
trig_home_braking :
    (s : Stepper)
    → IsSeeking s
    → let s' = trig_home s in
      let n = steps_to_stop s.acceleration (square_of s.current_velocity) in
      (s'.home_position ≡ some s.position)
      × (s'.target ≡ pos 0)
      × (dist s'.position s'.target ≡ n)
      × (dist s'.position s'.motion_start_position ≡ n)
      × (same_direction (direction_to s'.position s'.target) s.motion_direction ≡ true)
      × (s'.motion_direction ≡ s.motion_direction)
      × (s'.braking ≡ true)
      × (s'.home_triggered ≡ true)
      × (s'.homing_active ≡ true)
      × (s'.can_move ≡ s.can_move)
unfolding trig_home
trig_home_braking s h = ground arith

face_target_same :
    (s : Stepper)
    → s.position ≢ s.target
    → same_direction (direction_to s.position s.target) s.motion_direction ≡ true
    → face_target s ≡ s
unfolding face_target
face_target_same s h d = ground (arith, eq_of_parts s.position s.target)

capped-le_current : (v l a d : ℤ) → capped true v l a d ≤ℤ v
unfolding capped
capped-le_current v l a d = ground arith

advance_once_same :
    (s : Stepper)
    → s.can_move ≡ true
    → s.position ≢ s.target
    → face_target s ≡ s
    → (advance_once s).0
      ≡ finish_homing (record s { current_velocity = next_velocity s; position = step_position s })
unfolding advance_once
advance_once_same s m h e = ground arith

-- One step toward a target leaves the direction to it as it was, or arrives.
step_position_direction :
    (s : Stepper)
    → s.position ≢ s.target
    → (step_position s ≡ s.target)
      ⊎ (direction_to (step_position s) s.target ≡ direction_to s.position s.target)
unfolding ◌+ℤ◌ ◌-ℤ◌
step_position_direction s h = ground arith

-- While it brakes in the direction of its target, a stepper never gets faster and stays braking in
-- that direction, or is at its target.
pub advance_once-braking :
    (s : Stepper)
    → s.can_move ≡ true
    → s.braking ≡ true
    → s.position ≢ s.target
    → same_direction (direction_to s.position s.target) s.motion_direction ≡ true
    → let s' = (advance_once s).0 in
      (s'.current_velocity ≤ℤ s.current_velocity)
      × (s'.motion_direction ≡ s.motion_direction)
      × ((s'.position ≡ s'.target)
          ⊎ ((s'.braking ≡ true)
              × (same_direction (direction_to s'.position s'.target) s'.motion_direction ≡ true)))
advance_once-braking s m b h d =
    let v =
      capped-le_current s.current_velocity (speed_limit s) (acceleration_velocity s)
        (deceleration_velocity s) in
    rw (advance_once_same s m h (face_target_same s h d))
      (ground (arith, v, step_position_direction s h))

-- One round of a stepper whose switch has reported: the last step to the target ends the homing, and
-- an earlier one does not.
advance_once_last :
    (s : Stepper)
    → s.can_move ≡ true
    → s.home_triggered ≡ true
    → dist s.position s.target ≡ 1
    → let s' = (advance_once s).0 in
      (s'.position ≡ s.target)
      × (s'.homing_active ≡ false)
      × (s'.home_triggered ≡ false)
      × (s'.braking ≡ false)
      × (s'.home_position ≡ s.home_position)
unfolding advance_once face_target
advance_once_last s m t d = ground arith

advance_once_earlier :
    (s : Stepper) (n : ℕ)
    → s.can_move ≡ true
    → s.home_triggered ≡ true
    → dist s.position s.target ≡ suc (suc n)
    → let s' = (advance_once s).0 in
      (s'.home_triggered ≡ true) × (s'.home_position ≡ s.home_position)
unfolding advance_once face_target
advance_once_earlier s n m t d = ground arith

square_of_pos : (v : ℤ) → pos 0 <ℤ v → pos (square_of v) ≡ v
square_of_pos v h = ground (arith, h)

square_of_moving : (v : ℤ) → pos 0 <ℤ v → 0 < square_of v
square_of_moving v h = ground (arith, h)

pos_le : (a b : ℕ) → a ≤ b → pos a ≤ℤ pos b
pos_le a b h = omega arith

pos_less : (a b : ℕ) → a < b → pos a <ℤ pos b
pos_less a b h = omega arith

advance_times_homes :
    (n : ℕ) (s : Stepper)
    → CanStep s
    → s.can_move ≡ true
    → s.home_triggered ≡ true
    → dist s.position s.target ≡ suc n
    → let s' = advance_times (suc n) s in
      (s'.position ≡ s.target)
      × (s'.homing_active ≡ false)
      × (s'.home_triggered ≡ false)
      × (s'.braking ≡ false)
      × (s'.home_position ≡ s.home_position)
unfolding advance_times
advance_times_homes zero s c m t d =
    rw (has_raised-advance_once s c, advance_times) (advance_once_last s m t d)
advance_times_homes (suc n) s c m t d =
    let s' = (advance_once s).0 in
    let (near, aim, may) = advance_once-nearer s m (ne_of_dist s.position s.target d) in
    let (still_set, kept) = advance_once_earlier s n m t d in
    let (p, h, o, b, k) =
      advance_times_homes n s' (advance_once-CanStep s c) may still_set
        (rw aim (omega (arith, near))) in
    rw (has_raised-advance_once s c, advance_times) (p ∙ aim, h, o, b, k ∙ kept)

advance_times_exact :
    (n : ℕ) (s : Stepper)
    → 1 ≤ n
    → CanStep s
    → s.can_move ≡ true
    → s.home_triggered ≡ true
    → dist s.position s.target ≡ n
    → let s' = advance_times n s in
      (s'.position ≡ s.target)
      × (s'.homing_active ≡ false)
      × (s'.home_triggered ≡ false)
      × (s'.braking ≡ false)
      × (s'.home_position ≡ s.home_position)
advance_times_exact zero s p c m t d = elim p [ ]
advance_times_exact (suc n) s p c m t d = advance_times_homes n s c m t d

-- A homing motor that meets the switch while it turns, whose acceleration and speeds are positive and
-- which may move, stops after the least number n of further rounds for which its squared velocity is at
-- most 2 a n: the switch puts the zero n steps ahead in the direction of motion, and after n rounds the
-- motor stands there, homing is over, and the place of the switch is kept.
pub homing_completes :
    (s : Stepper)
    → IsSeeking s
    → CanStep s
    → s.can_move ≡ true
    → (n : ℕ) × (s.current_velocity ≤ℤ pos (2 * s.acceleration * n))
      × (pos (2 * s.acceleration * (n - 1)) <ℤ s.current_velocity)
      × (let found = trig_home s in
          let s' = advance_times n found in
          (found.target ≡ pos 0)
          × (dist found.position (pos 0) ≡ n)
          × (same_direction (direction_to found.position (pos 0)) s.motion_direction ≡ true)
          × (s'.position ≡ pos 0)
          × (s'.homing_active ≡ false)
          × (s'.home_triggered ≡ false)
          × (s'.braking ≡ false)
          × (s'.home_position ≡ some s.position))
homing_completes s h c m =
    let (found, aim, away, _, ahead, _, _, seen, _, may) = trig_home_braking s h in
    let v = square_of s.current_velocity in
    let n = steps_to_stop s.acceleration v in
    let real : pos v ≡ s.current_velocity = square_of_pos s.current_velocity h.moving in
    let (enough, least, one) =
      steps_to_stop_least s.acceleration v c.accelerates
        (square_of_moving s.current_velocity h.moving) in
    let (p, o, t, b, k) =
      advance_times_exact n (trig_home s) one (trig_home-CanStep s c) (may ∙ m) seen away in
    (
      n,
      subst (λ x. x ≤ℤ pos (2 * s.acceleration * n)) real (pos_le _ _ enough),
      subst (λ x. pos (2 * s.acceleration * (n - 1)) <ℤ x) real (pos_less _ _ least),
      (
        aim,
        subst (λ x. dist (trig_home s).position x ≡ n) aim away,
        subst
            (λ x. same_direction (direction_to (trig_home s).position x) s.motion_direction ≡ true)
            aim ahead,
        p ∙ aim,
        o,
        t,
        b,
        k ∙ found,
      ),
    )
