-- ===== src/Stage/Stepper/Motion.antt =====
-- Where a stepper goes, and how fast: Stepper._advance_once of
-- sample-stage-ctl/src/sample_stage_ctl/controller.py.
use chamber_ctl.Prelude.{
  ℕ, ◌+◌, ◌*◌, ◌-◌, ◌<◌, ◌≡◌, ◌≢◌, Bool, true, ℤ, pos, ◌≤ℤ◌, ◌<ℤ◌, dist, arith, dist_pos, ltb_ℤ,
  Bool-cases, inl, inr, negsuc,
}
use chamber_ctl.Stage.Stepper.{
  Stepper, acceleration_velocity, deceleration_velocity, next_velocity, min_ℤ, capped, pulse,
  advance_once, speed_limit, face_target, signed_square,
}

-- A stepper that may move and is not at its target comes exactly one step nearer to it, and keeps
-- its target and its permission to move.
pub advance_once-nearer :
    (s : Stepper)
    → s.can_move ≡ true
    → s.position ≢ s.target
    → let s' = (advance_once s).0 in
      (dist s'.position s.target + 1 ≡ dist s.position s.target)
      × (s'.target ≡ s.target)
      × (s'.can_move ≡ true)
unfolding advance_once face_target
advance_once-nearer s m h = ground arith

le_cast : (v a b : ℤ) → v ≤ℤ a → a ≡ b → v ≤ℤ b
le_cast v a b h e = rw (← e) h

mul_pos : (a b : ℕ) → 0 < a → 0 < b → 0 < a * b + 0
mul_pos a b p q = grind arith

square_pos : (a : ℕ) → 0 < a → pos 0 <ℤ pos (a * a)
square_pos a p = grind arith

min_ℤ-le : (a b : ℤ) → (min_ℤ a b ≤ℤ a) × (min_ℤ a b ≤ℤ b)
unfolding min_ℤ
min_ℤ-le a b = ground arith

min_ℤ_pos : (a b : ℤ) → pos 0 <ℤ a → pos 0 <ℤ b → pos 0 <ℤ min_ℤ a b
unfolding min_ℤ
min_ℤ_pos a b p q = ground arith

capped-le :
    (b : Bool) (v l a d : ℤ)
    → (capped b v l a d ≤ℤ l) × (capped b v l a d ≤ℤ a) × (capped b v l a d ≤ℤ d)
unfolding capped
capped-le b v l a d =
    ground (arith, min_ℤ-le l a, min_ℤ-le (min_ℤ l a) d, min_ℤ-le (min_ℤ (min_ℤ l a) d) v)

capped_pos :
    (b : Bool) (v l a d : ℤ)
    → pos 0 <ℤ l
    → pos 0 <ℤ a
    → pos 0 <ℤ d
    → (b ≡ true → pos 0 <ℤ v)
    → pos 0 <ℤ capped b v l a d
unfolding capped
capped_pos b v l a d hl ha hd hv =
    ground (arith, min_ℤ_pos l a, min_ℤ_pos (min_ℤ l a) d, min_ℤ_pos (min_ℤ (min_ℤ l a) d) v)

face_target_keeps :
    (s : Stepper)
    → let f = face_target s in
      (f.position ≡ s.position)
      × (f.target ≡ s.target)
      × (f.acceleration ≡ s.acceleration)
      × (speed_limit f ≡ speed_limit s)
      × (f.braking ≡ true → (s.braking ≡ true) × (f.current_velocity ≡ s.current_velocity))
unfolding face_target speed_limit
face_target_keeps s = ground arith

pub advance_once-next_velocity :
    (s : Stepper)
    → s.can_move ≡ true
    → s.position ≢ s.target
    → (advance_once s).0.current_velocity ≡ next_velocity (face_target s)
unfolding advance_once face_target
advance_once-next_velocity s m h = ground arith

-- The velocity of a step stays within the limit in force and within what the acceleration allows
-- both from the start of the motion and for a stop at the target. Velocities are compared by
-- their squares, distances are those before the step.
pub advance_once_velocity :
    (s : Stepper)
    → s.can_move ≡ true
    → s.position ≢ s.target
    → let v = (advance_once s).0.current_velocity in
      (v ≤ℤ speed_limit s)
      × (v
          ≤ℤ pos (s.acceleration * (2 * dist s.position (face_target s).motion_start_position + 1)))
      × (v ≤ℤ pos (s.acceleration * (2 * dist s.target s.position - 1)))
advance_once_velocity s m h =
    let f = face_target s in
    let v = next_velocity f in
    let (p, t, a, l, _) = face_target_keeps s in
    let (cl, ca, cd) =
      capped-le f.braking f.current_velocity (speed_limit f) (acceleration_velocity f)
        (deceleration_velocity f) in
    rw (advance_once-next_velocity s m h) (
      le_cast v (speed_limit f) (speed_limit s) cl l,
      le_cast v (acceleration_velocity f)
          (pos (s.acceleration * (2 * dist s.position f.motion_start_position + 1))) ca
          (simp (p, a)),
      le_cast v (deceleration_velocity f)
          (pos (s.acceleration * (2 * dist s.target s.position - 1))) cd (simp (p, t, a)),
    )

-- What keeps the division by the velocity safe: the acceleration and the speeds are positive, and a
-- braking motor moves.
pub record CanStep (s : Stepper) : Type 0 where
  pub accelerates : 0 < s.acceleration
  pub runs : 0 < s.max_velocity
  pub homes : pos 0 <ℤ s.homing_speed
  pub brakes_moving : s.braking ≡ true → pos 0 <ℤ s.current_velocity

signed_square_pos : (v : ℤ) → pos 0 <ℤ v → pos 0 <ℤ signed_square v
signed_square_pos (pos n) h = grind arith
signed_square_pos (negsuc n) h = ground (arith, h)

speed_limit_pos : (s : Stepper) → CanStep s → pos 0 <ℤ speed_limit s
unfolding speed_limit
speed_limit_pos s c = elim (Bool-cases s.homing_active) [
  | inl homing ↦ rw homing (signed_square_pos s.homing_speed c.homes)
  | inr free ↦ rw free (square_pos s.max_velocity c.runs)
]

next_velocity_pos :
    (s : Stepper) → CanStep s → s.position ≢ s.target → pos 0 <ℤ next_velocity (face_target s)
next_velocity_pos s c h =
    let f = face_target s in
    let (p, t, a, l, b) = face_target_keeps s in
    capped_pos f.braking f.current_velocity (speed_limit f) (acceleration_velocity f)
      (deceleration_velocity f) (rw l (speed_limit_pos s c))
      (rw a (mul_pos s.acceleration _ c.accelerates (omega arith)))
      (simp (p, t, a)
        (mul_pos s.acceleration _ c.accelerates (omega (arith, dist_pos s.target s.position h))))
      (λ e. rw (b e).1 (c.brakes_moving (b e).0))

advance_once_effect :
    (s : Stepper)
    → s.can_move ≡ true
    → s.position ≢ s.target
    → pos 0 <ℤ next_velocity (face_target s)
    → (advance_once s).1 ≡ pulse (ltb_ℤ s.position s.target) (next_velocity (face_target s))
unfolding advance_once
advance_once_effect s m h v = ground arith

pub advance_once-pulse :
    (s : Stepper)
    → CanStep s
    → s.can_move ≡ true
    → s.position ≢ s.target
    → let (s', p) = advance_once s in
      (p ≡ pulse (ltb_ℤ s.position s.target) s'.current_velocity) × (pos 0 <ℤ s'.current_velocity)
advance_once-pulse s c m h =
    let v = next_velocity_pos s c h in
    rw (advance_once-next_velocity s m h) (advance_once_effect s m h v, v)
