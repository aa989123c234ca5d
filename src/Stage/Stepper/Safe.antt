-- ===== src/Stage/Stepper/Safe.antt =====
-- No step of a motor divides by zero, and where the steps lead: Stepper of
-- sample-stage-ctl/src/sample_stage_ctl/controller.py.
use chamber_ctl.Stage.Stepper.Motion.{CanStep, advance_once-pulse}
use chamber_ctl.Stage.Stepper.{
  Stepper, make_stepper, set_target, set_can_move, set_position, set_homing_state, trig_home,
  advance_once, has_raised, face_target, pulse,
}
use chamber_ctl.Prelude.{
  ℕ, ◌<◌, ◌≡◌, ◌≢◌, Bool, true, false, ℤ, pos, ◌<ℤ◌, arith, List, [], ◌∷◌, All, eqb_ℤ, ltb_ℤ,
  Bool-cases, inl, inr, ap, not, ◌&&◌,
}

-- What other threads, and its own, do to a stepper, each holding its lock.
pub data StepperEvent : Type 0 where
  aims : (target : ℤ) → StepperEvent
  permits : Bool → StepperEvent
  puts : (position : ℤ) → StepperEvent
  homes : Bool → (speed : ℤ) → StepperEvent
  meets_switch advances : StepperEvent

unfoldable pub stepper_event : StepperEvent → Stepper → Stepper
stepper_event (aims target) s = set_target target s
stepper_event (permits value) s = set_can_move value s
stepper_event (puts position) s = set_position position s
stepper_event (homes state speed) s = set_homing_state state speed s
stepper_event meets_switch s = trig_home s
stepper_event advances s = (advance_once s).0

unfoldable pub stepper_events : List StepperEvent → Stepper → Stepper
stepper_events [] s = s
stepper_events (e ∷ es) s = stepper_events es (stepper_event e s)

-- A homing command has a positive speed.
abbrev pub has_speed : StepperEvent → Bool
has_speed (homes state speed) = ltb_ℤ (pos 0) speed
has_speed _ = true

pub make_stepper-CanStep :
    (max_velocity acceleration : ℕ)
    → 0 < max_velocity
    → 0 < acceleration
    → CanStep (make_stepper max_velocity acceleration)
unfolding make_stepper
make_stepper-CanStep max_velocity acceleration v a = record {
  accelerates = a;
  runs = v;
  homes = ground arith;
  brakes_moving = λ e. cc e;
}

advance_once_frame :
    (s : Stepper)
    → let s' = (advance_once s).0 in
      (s'.acceleration ≡ s.acceleration)
      × (s'.max_velocity ≡ s.max_velocity)
      × (s'.homing_speed ≡ s.homing_speed)
unfolding advance_once face_target
advance_once_frame s = ground arith

advance_once-idle :
    (s : Stepper) → (s.can_move && not (eqb_ℤ s.position s.target)) ≡ false → (advance_once s).0 ≡ s
unfolding advance_once
advance_once-idle s h = ground arith

pub advance_once-CanStep : (s : Stepper) → CanStep s → CanStep (advance_once s).0
advance_once-CanStep s c =
    let (a, v, h) = advance_once_frame s in
    elim (Bool-cases (s.can_move && not (eqb_ℤ s.position s.target))) [
      | inl moves ↦
          let faster = (advance_once-pulse s c (ground arith) (ground arith)).1 in
          record {
            accelerates = rw a c.accelerates;
            runs = rw v c.runs;
            homes = rw h c.homes;
            brakes_moving = λ e. faster;
          }
      | inr stays ↦ rw (advance_once-idle s stays) c
    ]

pub trig_home-CanStep : (s : Stepper) → CanStep s → CanStep (trig_home s)
unfolding trig_home
trig_home-CanStep s c = record {
  accelerates = ground (arith, c.accelerates);
  runs = ground (arith, c.runs);
  homes = ground (arith, c.homes);
  brakes_moving = ground (arith, c.brakes_moving);
}

stepper_event-CanStep :
    (e : StepperEvent) (s : Stepper) → has_speed e ≡ true → CanStep s → CanStep (stepper_event e s)
unfolding stepper_event set_target set_can_move set_position set_homing_state
stepper_event-CanStep (aims target) s p c = record {
  accelerates = ground (arith, c.accelerates);
  runs = ground (arith, c.runs);
  homes = ground (arith, c.homes);
  brakes_moving = ground (arith, c.brakes_moving);
}
stepper_event-CanStep (permits value) s p c = record {
  accelerates = ground (arith, c.accelerates);
  runs = ground (arith, c.runs);
  homes = ground (arith, c.homes);
  brakes_moving = ground (arith, c.brakes_moving);
}
stepper_event-CanStep (puts position) s p c = record {
  accelerates = c.accelerates;
  runs = c.runs;
  homes = c.homes;
  brakes_moving = λ e. cc e;
}
stepper_event-CanStep (homes state speed) s p c = record {
  accelerates = c.accelerates;
  runs = c.runs;
  homes = ground (arith, p);
  brakes_moving = λ e. cc e;
}
stepper_event-CanStep meets_switch s p c = trig_home-CanStep s c
stepper_event-CanStep advances s p c = advance_once-CanStep s c

stepper_events-CanStep :
    (es : List StepperEvent) (s : Stepper)
    → All (λ e. has_speed e ≡ true) es
    → CanStep s
    → CanStep (stepper_events es s)
unfolding stepper_events
stepper_events-CanStep [] s p c = c
stepper_events-CanStep (e ∷ es) s p c =
    stepper_events-CanStep es (stepper_event e s) p.1 (stepper_event-CanStep e s p.0 c)

pub has_raised-advance_once : (s : Stepper) → CanStep s → has_raised (advance_once s).1 ≡ false
unfolding advance_once
has_raised-advance_once s c = elim (Bool-cases (s.can_move && not (eqb_ℤ s.position s.target))) [
  | inl moves ↦ ap has_raised (advance_once-pulse s c (ground arith) (ground arith)).0
  | inr stays ↦ ground arith
]

-- Whatever targets, positions, permissions, reports of the switch, steps and homing commands with a
-- positive speed come after the start, the next step does not divide by zero, and if the stepper may
-- move and is away from its target it is a pulse toward the target at a positive velocity, if the
-- configured speed and acceleration are positive.
pub steps_never_raise :
    (max_velocity acceleration : ℕ) (es : List StepperEvent)
    → 0 < max_velocity
    → 0 < acceleration
    → All (λ e. has_speed e ≡ true) es
    → let s = stepper_events es (make_stepper max_velocity acceleration) in
      (has_raised (advance_once s).1 ≡ false)
      × (s.can_move ≡ true
          → s.position ≢ s.target
          → ((advance_once s).1
              ≡ pulse (ltb_ℤ s.position s.target) (advance_once s).0.current_velocity)
            × (pos 0 <ℤ (advance_once s).0.current_velocity))
steps_never_raise max_velocity acceleration es v a p =
    let s = stepper_events es (make_stepper max_velocity acceleration) in
    let c =
      stepper_events-CanStep es (make_stepper max_velocity acceleration) p
        (make_stepper-CanStep max_velocity acceleration v a) in
    (has_raised-advance_once s c, λ m h. advance_once-pulse s c m h)
