-- ===== src/Stage/Driver/Ending.antt =====
-- The thread of StepperController ends once the shutdown event is set:
-- sample-stage-ctl/src/sample_stage_ctl/controller.py.
use chamber_ctl.Prelude.{
  ℕ, zero, suc, ◌+◌, ◌-◌, ◌*◌, ◌≤◌, ◌<◌, ◌≡◌, List, [], ◌∷◌, length, get_elem?, arith, refl,
  Option-cases, Bool-cases, inl, inr, some, ltb, ap, true, false, subst, ◌∙◌,
}
use chamber_ctl.Stage.Stepper.{Stepper, is_moving}
use chamber_ctl.Stage.Driver.{
  Phase, waiting, noting, powering, enabling, marking, disabling, cutting, clearing, stop_cutting,
  stop_clearing, finished, asking, permitting, forbidding, stopping, testing, resting,
  StepperController, update_at, each_stepper, asks, work_in, permits_at, on_stepper, step, Event,
  set_can_move, work, works, cuts, ordered, advances, obey, limit_hit, advance_once, forbids,
  trig_home, shuts, clears,
}

-- How many steps the thread has left at most once the event is set, with `n` steppers.
abbrev pub steps_left : ℕ → Phase → ℕ
steps_left n finished = 0
steps_left n stop_clearing = 1
steps_left n stop_cutting = 2
steps_left n (stopping i) = 3 + (n - i)
steps_left n waiting = 1
steps_left n clearing = 2
steps_left n cutting = 3
steps_left n enabling = 4 + n
steps_left n disabling = 4 + n
steps_left n (forbidding i) = 5 + n + (n - i)
steps_left n powering = 5 + n
steps_left n (resting moving) = 6 + 2 * n
steps_left n marking = 7 + 2 * n
steps_left n (testing moving) = 7 + 2 * n
steps_left n noting = 8 + 2 * n
steps_left n (permitting i) = 8 + 2 * n + (n - i)
steps_left n (asking i) = 9 + 2 * n + (n - i)

pub steps_left-bounded : (n : ℕ) (p : Phase) → steps_left n p ≤ 9 + 3 * n
steps_left-bounded n p = ground arith

pub no_steps_left : (n : ℕ) (p : Phase) → steps_left n p ≤ 0 → p ≡ finished
no_steps_left n p h = ground arith

length-update_at :
    (i : ℕ) (f : Stepper → Stepper) (l : List Stepper) → length (update_at i f l) ≡ length l
unfolding update_at
length-update_at i f [] = refl
length-update_at zero f (s ∷ l) = refl
length-update_at (suc i) f (s ∷ l) = ap (λ n. suc n) (length-update_at i f l)

get_elem?-less : (l : List Stepper) (i : ℕ) {s : Stepper} → get_elem? l i ≡ some s → i < length l
get_elem?-less [] i e = cc e
get_elem?-less (x ∷ l) zero e = omega arith
get_elem?-less (x ∷ l) (suc i) e = let later = get_elem?-less l i e in omega arith

each_stepper-nearer :
    (i : ℕ) (after : Phase) (again : ℕ → Phase) (c : StepperController) (base : ℕ)
    → let n = length c.steppers in
      steps_left n after ≤ base
      → ((k : ℕ) → steps_left n (again k) ≡ base + 1 + (n - k))
      → steps_left n (each_stepper i after again c) ≤ base + (n - i)
unfolding each_stepper
each_stepper-nearer i after again c base low high = elim (Bool-cases (ltb i (length c.steppers))) [
  | inl inside ↦
      let less : i < length c.steppers = ground (arith, inside) in
      let next = high (i + 1) in rw inside (omega (arith, next, less))
  | inr past ↦ rw past (omega arith)
]

asks-nearer :
    (i : ℕ) (c : StepperController)
    → let n = length c.steppers in steps_left n (asks i c).phase ≤ 8 + 2 * n + (n - i)
unfolding asks
asks-nearer i c = elim (Option-cases (get_elem? c.steppers i)) [
  | inl e ↦ rw (e, asks) (omega arith)
  | inr (s, e) ↦
      let inside = get_elem?-less c.steppers i e in
      elim (Bool-cases (is_moving s)) [
        | inl moves ↦ rw (e, moves, asks) (omega arith)
        | inr stands ↦ rw (e, stands, asks) (omega arith)
      ]
]

work_in-nearer :
    (p : Phase) (now : ℕ) (c : StepperController)
    → c.phase ≡ p
    → c.shutdown ≡ true
    → let n = length c.steppers in steps_left n (work_in p now c).phase ≤ steps_left n p - 1
unfolding work_in
work_in-nearer waiting now c e h = rw h (omega arith)
work_in-nearer (asking i) now c e h = let near = asks-nearer i c in omega (arith, near)
work_in-nearer noting now c e h = omega arith
work_in-nearer (testing moving) now c e h = ground arith
work_in-nearer powering now c e h = omega arith
work_in-nearer enabling now c e h = rw h (omega arith)
work_in-nearer (permitting i) now c e h =
    let near =
      each_stepper-nearer i marking permitting c (7 + 2 * length c.steppers) (omega arith)
        (λ k. omega arith) in
    omega (arith, near)
work_in-nearer marking now c e h = omega arith
work_in-nearer (resting moving) now c e h = ground arith
work_in-nearer (forbidding i) now c e h =
    let near =
      each_stepper-nearer i disabling forbidding c (4 + length c.steppers) (omega arith)
        (λ k. omega arith) in
    omega (arith, near)
work_in-nearer disabling now c e h = rw h (omega arith)
work_in-nearer cutting now c e h = omega arith
work_in-nearer clearing now c e h = omega arith
work_in-nearer (stopping i) now c e h =
    let near = each_stepper-nearer i stop_cutting stopping c 2 (omega arith) (λ k. omega arith) in
    omega (arith, near)
work_in-nearer stop_cutting now c e h = omega arith
work_in-nearer stop_clearing now c e h = omega arith
work_in-nearer finished now c e h = rw e (omega arith)

-- The steps of the thread among the events.
abbrev pub works_of : List Event → ℕ
works_of [] = 0
works_of (works now ∷ es) = works_of es + 1
works_of (e ∷ es) = works_of es

abbrev pub is_work : Event → ℕ
is_work (works now) = 1
is_work _ = 0

pub works_of-cons : (e : Event) (es : List Event) → works_of (e ∷ es) ≡ works_of es + is_work e
works_of-cons e es = ground arith

asks-length : (i : ℕ) (c : StepperController) → length (asks i c).steppers ≡ length c.steppers
unfolding asks
asks-length i c = elim (Option-cases (get_elem? c.steppers i)) [
  | inl e ↦ rw (e, asks) refl
  | inr (s, e) ↦ rw (e, asks) refl
]

work_in-length :
    (p : Phase) (now : ℕ) (c : StepperController)
    → length (work_in p now c).steppers ≡ length c.steppers
unfolding work_in permits_at on_stepper
work_in-length (permitting i) now c = length-update_at i (set_can_move true) c.steppers
work_in-length (forbidding i) now c = length-update_at i (set_can_move false) c.steppers
work_in-length (stopping i) now c = length-update_at i (set_can_move false) c.steppers
work_in-length (asking i) now c = asks-length i c
work_in-length waiting now c = refl
work_in-length noting now c = refl
work_in-length powering now c = refl
work_in-length enabling now c = refl
work_in-length marking now c = refl
work_in-length disabling now c = refl
work_in-length cutting now c = refl
work_in-length clearing now c = refl
work_in-length stop_cutting now c = refl
work_in-length stop_clearing now c = refl
work_in-length finished now c = refl
work_in-length (testing m) now c = refl
work_in-length (resting m) now c = refl

-- An event brings the end of the thread nearer, if the thread makes it.
pub step-nearer :
    (e : Event) (c : StepperController) (n : ℕ)
    → c.shutdown ≡ true
    → length c.steppers ≡ n
    → (steps_left n (step e c).phase ≤ steps_left n c.phase - is_work e)
      × (length (step e c).steppers ≡ n)
unfolding step work permits_at on_stepper
step-nearer (works now) c n h size = (
  subst (λ k. steps_left k (work_in c.phase now c).phase ≤ steps_left k c.phase - 1) size
      (work_in-nearer c.phase now c refl h),
  work_in-length c.phase now c ∙ size,
)
step-nearer (ordered i order) c n h size =
    (omega arith, length-update_at i (obey order) c.steppers ∙ size)
step-nearer (advances i) c n h size =
    (omega arith, length-update_at i (λ s. (advance_once s).0) c.steppers ∙ size)
step-nearer (limit_hit i) c n h size = (omega arith, length-update_at i trig_home c.steppers ∙ size)
step-nearer shuts c n h size = (omega arith, size)
step-nearer (forbids i) c n h size =
    (omega arith, length-update_at i (set_can_move false) c.steppers ∙ size)
step-nearer cuts c n h size = (omega arith, size)
step-nearer clears c n h size = (omega arith, size)
