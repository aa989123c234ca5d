-- ===== src/Batch/Assess/Total.antt =====
-- `assess_batch` of src/chamber_ctl/subsystems/batcher.py always has an answer.
use chamber_ctl.Batch.Assess.Stages.{assess_metrics-none}
use chamber_ctl.Prelude.{
  refl, [], ◌∷◌, All, true, false, find_first, Option, some, none, Bool, inl, inr, is_finite, Float,
  fin, flt, nan, pos_inf, neg_inf, fle, List, ◌≡◌, zero_float, fadd, fsum_from, fmax, arith, fsub,
  map, -ℤ_parts, select, Bool-cases, any, All-map, ◌==◌, ◌⊎◌, not, subst, ◌||◌, is_some,
  if◌then◌else◌, ap, ok,
}
use chamber_ctl.Batch.Plan.{
  BatchPlan, BatchPlanEntry, TargetMode, dose, time, ExposureTemplate, Planned,
}
use chamber_ctl.Batch.Settings.{settings_for, ExposureSettings}
use chamber_ctl.Batch.Attempt.{
  ExposureAttempt, SampleProgress, remainder, progress_for, AssessmentConfig, progress_state,
  under_target, progress_of, present, is_sample,
}
use chamber_ctl.Batch.Order.{sort_attempts}
use chamber_ctl.Batch.Decision.{ControllerSnapshot, BatchAssessment}
use chamber_ctl.Batch.Assess.{
  assess_batch, Inputs, start_sample, is_under, assess_next, metrics_complaint, or_else,
  assess_terminal, is_terminal,
}
use chamber_ctl.Batch.Assess.Settled.{next_of}

-- What AssessmentConfig checks of its tolerances, and BatchPlanEntry of its target.
pub record IsConfig (c : AssessmentConfig) : Type 0 where
  pub dose_ok : (fle zero_float c.dose_tolerance ≡ true) × (is_finite c.dose_tolerance ≡ true)
  pub time_ok : (fle zero_float c.time_tolerance ≡ true) × (is_finite c.time_tolerance ≡ true)

abbrev pub HasTargets : List BatchPlanEntry → Type 0
HasTargets = All (λ e. is_finite e.target ≡ true)

abbrev Answers : Planned BatchAssessment → Type 0
Answers r = (a : BatchAssessment) × (r ≡ ok a)

or_else-Answers :
    (o : Option BatchAssessment) (r : Planned BatchAssessment)
    → (o ≡ none → Answers r)
    → Answers (or_else o r)
unfolding or_else
or_else-Answers none r h = h refl
or_else-Answers (some a) r h = (a, refl)

-- A sample that is under its target lacks a positive amount.
lacking :
    (actual target tolerance : Float)
    → is_finite actual ≡ true
    → is_finite target ≡ true
    → (fle zero_float tolerance ≡ true) × (is_finite tolerance ≡ true)
    → progress_state actual target tolerance ≡ under_target
    → let r = fmax zero_float (fsub target actual) in
      (is_finite r ≡ true) × (flt zero_float r ≡ true)
lacking (fin x) (fin t) (fin z) fx ft fz u = ground (arith, -ℤ_parts t z, -ℤ_parts t x)
lacking nan t z fx ft fz u = cc
lacking pos_inf t z fx ft fz u = cc
lacking neg_inf t z fx ft fz u = cc
lacking (fin x) nan z fx ft fz u = cc
lacking (fin x) pos_inf z fx ft fz u = cc
lacking (fin x) neg_inf z fx ft fz u = cc
lacking (fin x) (fin t) nan fx ft fz u = cc (fz.1)
lacking (fin x) (fin t) pos_inf fx ft fz u = cc (fz.1)
lacking (fin x) (fin t) neg_inf fx ft fz u = cc (fz.1)

fadd-finite : (a b : Float) → is_finite a ≡ true → is_finite b ≡ true → is_finite (fadd a b) ≡ true
fadd-finite a b p q = ground arith

abbrev IsMeasured : Option Float → Type 0
IsMeasured o = (f : Float) × (o ≡ some f) × (is_finite f ≡ true)

complaint-IsMeasured :
    (c : AssessmentConfig) (d r : Option Float)
    → metrics_complaint c d r ≡ none
    → IsMeasured d × IsMeasured r
complaint-IsMeasured c none r e = cc
complaint-IsMeasured c (some d) none e = cc
complaint-IsMeasured c (some d) (some r) e = ((d, refl, ground arith), (r, refl, ground arith))

-- Sums of finite metrics are finite.
sum-finite :
    (g : ExposureAttempt → Option Float) (q : ExposureAttempt → Bool) (acc : Float)
    (l : List ExposureAttempt)
    → All (λ a. IsMeasured (g a)) l
    → is_finite acc ≡ true
    → is_finite (fsum_from acc (present (map g (select q l)))) ≡ true
sum-finite g q acc [] m f = f
sum-finite g q acc (a ∷ l) m f = elim (Bool-cases (q a)) [
  | inl chosen ↦
      let (x, e, fx) = m.0 in
      rw (chosen, e, present) (sum-finite g q (fadd acc x) l m.1 (fadd-finite acc x f fx))
  | inr skipped ↦ rw skipped (sum-finite g q acc l m.1 f)
]

under_target_of_is_under : (p : SampleProgress) → is_under p ≡ true → p.state ≡ under_target
under_target_of_is_under p u = ground arith

mode_cases : (m : TargetMode) → (m ≡ dose) ⊎ (m ≡ time)
mode_cases dose = inl refl
mode_cases time = inr refl

progress_lacking :
    (c : AssessmentConfig) (l : List ExposureAttempt) (e : BatchPlanEntry)
    → IsConfig c
    → All (λ a. metrics_complaint c a.dose a.runtime ≡ none) l
    → is_finite e.target ≡ true
    → is_under (progress_of c l e) ≡ true
    → let r = remainder (progress_of c l e) in (is_finite r ≡ true) × (flt zero_float r ≡ true)
unfolding progress_of
progress_lacking c l e ok_config m t u =
    let doses =
      sum-finite (λ a. a.dose) (λ a. is_sample e.sample a.sample) zero_float l
        (All-map l (λ a h. (complaint-IsMeasured c a.dose a.runtime h).0) m) refl in
    let runtimes =
      sum-finite (λ a. a.runtime) (λ a. is_sample e.sample a.sample) zero_float l
        (All-map l (λ a h. (complaint-IsMeasured c a.dose a.runtime h).1) m) refl in
    let under = under_target_of_is_under (progress_of c l e) u in
    elim (mode_cases e.mode) [
      | inl by_dose ↦
          rw by_dose
            (lacking _ e.target c.dose_tolerance doses t ok_config.dose_ok (rw by_dose at under))
      | inr by_time ↦
          rw by_time
            (lacking _ e.target c.time_tolerance runtimes t ok_config.time_ok (rw by_time at under))
    ]

-- The first sample that is under its target comes from an entry of the plan.
entry_of :
    (f : BatchPlanEntry → SampleProgress) (l : List BatchPlanEntry) {p : SampleProgress}
    → HasTargets l
    → find_first is_under (map f l) ≡ some p
    → (e : BatchPlanEntry) × (f e ≡ p)
      × (is_under (f e) ≡ true)
      × (is_finite e.target ≡ true)
      × (any (λ x. x.sample == e.sample) l ≡ true)
entry_of f [] t e = cc
entry_of f (x ∷ l) {p} t e = elim (Bool-cases (is_under (f x))) [
  | inl under ↦ (x, ground arith, under, t.0, ground arith)
  | inr met ↦
      let (y, same, under, fin_y, found) = entry_of f l {p = p} t.1 (rw met at e) in
      (y, same, under, fin_y, ground arith)
]

settings_for-ok :
    (t : ExposureTemplate) (e : BatchPlanEntry) (target : Float)
    → (is_finite target ≡ true) × (flt zero_float target ≡ true)
    → (s : ExposureSettings) × (settings_for t e target ≡ ok s)
unfolding settings_for
settings_for-ok t e target h = rw (h.0, h.1) (_, refl)

start_sample-Answers :
    (plan : BatchPlan) (progress : List SampleProgress) (p : SampleProgress)
    (l : List BatchPlanEntry)
    → (is_finite (remainder p) ≡ true) × (flt zero_float (remainder p) ≡ true)
    → any (λ x. x.sample == p.sample) l ≡ true
    → Answers (start_sample plan progress p l)
unfolding start_sample
start_sample-Answers plan progress p [] r h = cc
start_sample-Answers plan progress p (x ∷ l) r h = elim (Bool-cases (x.sample == p.sample)) [
  | inl same ↦
      let (s, e) = settings_for-ok plan.template x (remainder p) r in rw (same, e) (_, refl)
  | inr other ↦ rw other (start_sample-Answers plan progress p l r (rw other at h))
]

if-Answers :
    (b : Bool) (x y : Planned BatchAssessment)
    → Answers x
    → Answers y
    → Answers (if b then x else y)
if-Answers true x y h k = h
if-Answers false x y h k = k

assess_next-Answers :
    (plan : BatchPlan) (c : ControllerSnapshot) (b : Bool) (progress : List SampleProgress)
    (first : Option SampleProgress)
    → ((p : SampleProgress) → first ≡ some p → Answers (start_sample plan progress p plan.entries))
    → Answers (assess_next plan c b progress first)
unfolding assess_next
assess_next-Answers plan c b progress none h = if-Answers b _ _ (_, refl) (_, refl)
assess_next-Answers plan c b progress (some p) h =
    if-Answers b _ _ (_, refl)
      (if-Answers (not c.available) _ _ (_, refl)
        (if-Answers (not c.idle || is_some c.current_run_uuid) _ _ (_, refl) (h p refl)))

progress_sample :
    (c : AssessmentConfig) (l : List ExposureAttempt) (e : BatchPlanEntry) (p : SampleProgress)
    → progress_of c l e ≡ p
    → e.sample ≡ p.sample
unfolding progress_of
progress_sample c l e p same = ap (λ q. q.sample) same

-- A check for the exposure to start: whatever sample is first under its target, its settings exist.
next_of-Answers :
    (plan : BatchPlan) (controller : ControllerSnapshot) (i : Inputs) (l : List ExposureAttempt)
    → IsConfig i.config
    → HasTargets plan.entries
    → All (λ a. metrics_complaint i.config a.dose a.runtime ≡ none) l
    → Answers (next_of plan controller i l)
unfolding progress_for
next_of-Answers plan controller i l c t m =
    assess_next-Answers plan controller i.paused_by_hand _ _ λ p first.
      let (e, same, under, finite, found) =
        entry_of (progress_of i.config l) plan.entries t first in
      start_sample-Answers plan _ p plan.entries
        (subst (λ q. (is_finite (remainder q) ≡ true) × (flt zero_float (remainder q) ≡ true)) same
          (progress_lacking i.config l e c m finite under))
        (subst (λ q. any (λ x. x.sample == q) plan.entries ≡ true)
          (progress_sample i.config l e p same) found)

assess_terminal-Answers :
    (plan : BatchPlan) (controller : ControllerSnapshot) (i : Inputs)
    (terminal : List ExposureAttempt)
    → IsConfig i.config
    → HasTargets plan.entries
    → Answers (assess_terminal plan controller i terminal)
unfolding assess_terminal
assess_terminal-Answers plan controller i terminal c t = or_else-Answers _ _ λ _.
    or_else-Answers _ _ λ _. or_else-Answers _ _ λ _. or_else-Answers _ _ λ measured.
      or_else-Answers _ _ λ _. or_else-Answers _ _ λ _.
        next_of-Answers plan controller i terminal c t
          (assess_metrics-none i.config _ terminal measured)

-- With finite targets and tolerances, and a finite present time, the planner never raises: it has an
-- answer for every list of runs, controller state and set of acknowledgements.
pub assess_batch_total :
    (plan : BatchPlan) (attempts : List ExposureAttempt) (controller : ControllerSnapshot)
    (i : Inputs)
    → IsConfig i.config
    → HasTargets plan.entries
    → is_finite i.now ≡ true
    → (a : BatchAssessment) × (assess_batch plan attempts controller i ≡ ok a)
unfolding assess_batch
assess_batch_total plan attempts controller i c t n = rw n (
    or_else-Answers _ _ λ _. or_else-Answers _ _ λ _.
      assess_terminal-Answers plan controller i (select is_terminal (sort_attempts attempts)) c t)
