-- ===== src/Batch/Assess.antt =====
-- The next action of a batch: `assess_batch` of src/chamber_ctl/subsystems/batcher.py, one function
-- for each stage that may return early.
pub mod Stages
pub mod Settled
pub mod Start
pub mod Total
pub mod Repair
use chamber_ctl.Prelude.{
  ◌>>=◌, ◌>>◌, ℕ, Bool, true, false, not, ◌&&◌, ◌||◌, Option, none, some, List, [], ◌∷◌, ℤ, pos,
  ltb, ◌==◌, Float, is_finite, flt, feq, fadd, Text, if◌then◌else◌, select, find_first, is_some,
  eqb_ℤ, err, ok,
}
use chamber_ctl.Batch.Plan.{
  time_not_finite, no_such_entry, BatchPlan, BatchPlanEntry, samples, member, Planned,
}
use chamber_ctl.Batch.Settings.{ExposureSettings, settings_for}
use chamber_ctl.Batch.Decision.{
  ControllerSnapshot, wait_controller, wait_active, wait_finalization, repair_metrics, pause_error,
  pause_failure, paused, start_remainder, complete, invalid_attempt, several_unterminated,
  controller_busy, still_active, not_current_run, controller_unavailable, finalizing,
  unknown_status, repair_exhausted, needs_repair, non_finite_metrics, dose_below_minimum,
  runtime_below_minimum, run_aborted, remains_below_target, manually_paused, all_met, sample_needs,
  Message, BatchAssessment, decide_run, decide_only,
}
use chamber_ctl.Batch.Order.{latest_of, sort_attempts, latest_by_sample, same_sample}
use chamber_ctl.Batch.Attempt.{
  ExposureAttempt, AssessmentConfig, SampleProgress, under_target, remainder, AttemptError,
  attempt_error, metrics_need_repair, progress_for, has_status, stopped, aborted,
}

-- The first attempt with an error.
unfoldable pub first_error : List ℕ → List ExposureAttempt → Option (ExposureAttempt × AttemptError)
first_error planned [] = none
first_error planned (a ∷ rest) =
    let later = first_error planned rest in
    elim (attempt_error a planned) [ some e ↦ some (a, e) | none ↦ later ]

abbrev pub is_active : ExposureAttempt → Bool
is_active a = not (is_some a.status)

abbrev pub is_terminal : ExposureAttempt → Bool
is_terminal a = is_some a.status

abbrev pub same_run : Option ℕ → ℕ → Bool
same_run none n = false
same_run (some m) n = m == n

abbrev pub last_or : ExposureAttempt → List ExposureAttempt → ExposureAttempt
last_or a [] = a
last_or a (b ∷ rest) = last_or b rest

-- The runs that have no status.
unfoldable pub assess_active :
    List SampleProgress → ControllerSnapshot → List ExposureAttempt → Option BatchAssessment
assess_active progress controller [] = none
assess_active progress controller (a ∷ []) = some (
    if not controller.available
    then decide_run progress wait_controller (controller_unavailable controller.error) a
    else if not controller.idle && same_run controller.current_run_uuid a.run_uuid
    then decide_run progress wait_active still_active a
    else decide_run progress pause_error not_current_run a)
assess_active progress controller (a ∷ b ∷ rest) =
    some (decide_run progress pause_error several_unterminated (last_or b rest))

abbrev pub is_finalizing : Float → Float → ExposureAttempt → Bool
is_finalizing now delay a = elim a.end_time [ some f ↦ flt now (fadd f delay) | none ↦ false ]

unfoldable pub assess_finalizing :
    List SampleProgress → List ExposureAttempt → Option BatchAssessment
assess_finalizing progress [] = none
assess_finalizing progress (a ∷ rest) =
    some (decide_run progress wait_finalization finalizing (latest_of a rest))

abbrev pub has_known_status : ExposureAttempt → Bool
has_known_status a = has_status stopped a || has_status aborted a

unfoldable pub assess_status : List SampleProgress → List ExposureAttempt → Option BatchAssessment
assess_status progress [] = none
assess_status progress (a ∷ rest) =
    let later = assess_status progress rest in
    if has_known_status a then later else some (decide_run progress pause_error unknown_status a)

unfoldable pub assess_repair :
    List SampleProgress → List ℕ → List ExposureAttempt → Option BatchAssessment
assess_repair progress blocked [] = none
assess_repair progress blocked (a ∷ rest) =
    let later = assess_repair progress blocked rest in
    if metrics_need_repair a
    then some (
        if member a.run_uuid blocked
        then decide_run progress pause_error repair_exhausted a
        else decide_run progress repair_metrics needs_repair a)
    else later

-- The complaint about one attempt's metrics.
abbrev pub metrics_complaint : AssessmentConfig → Option Float → Option Float → Option Message
metrics_complaint config (some dose) (some runtime) =
    if not (is_finite dose) || not (is_finite runtime)
    then some non_finite_metrics
    else if flt dose config.minimum_dose
    then some dose_below_minimum
    else if flt runtime config.minimum_runtime
    then some runtime_below_minimum
    else none
metrics_complaint config _ _ = some non_finite_metrics

unfoldable pub assess_metrics :
    AssessmentConfig → List SampleProgress → List ExposureAttempt → Option BatchAssessment
assess_metrics config progress [] = none
assess_metrics config progress (a ∷ rest) =
    let later = assess_metrics config progress rest in
    elim (metrics_complaint config a.dose a.runtime) [
      | some message ↦ some (decide_run progress pause_error message a)
      | none ↦ later
    ]

unfoldable pub assess_aborted : List SampleProgress → List ExposureAttempt → Option BatchAssessment
assess_aborted progress [] = none
assess_aborted progress (a ∷ rest) =
    some (decide_run progress pause_failure run_aborted (latest_of a rest))

abbrev pub is_under : SampleProgress → Bool
is_under p = elim p.state [ under_target ↦ true | _ ↦ false ]

abbrev pub has_sample : ℕ → ExposureAttempt → Bool
has_sample n a = same_sample a.sample (some (pos n))

-- The latest run of the first incomplete sample stopped short and is not acknowledged.
unfoldable pub assess_short :
    List SampleProgress
    → List ℕ
    → List ExposureAttempt
    → Option SampleProgress
    → Option BatchAssessment
assess_short progress acknowledged latest none = none
assess_short progress acknowledged latest (some p) =
    elim (find_first (has_sample p.sample) latest) [
      | none ↦ none
      | some a ↦
          if has_status stopped a && not (member a.run_uuid acknowledged)
          then some (decide_run progress pause_failure remains_below_target a)
          else none
    ]

abbrev pub start_decision : List SampleProgress → ℕ → ExposureSettings → BatchAssessment
start_decision progress sample settings = record {
  progress = progress;
  decision = record {
    kind = start_remainder;
    message = sample_needs;
    run_uuid = none;
    sample = some (pos sample);
    settings = some settings;
  };
}

-- `next(entry for entry in plan.entries if entry.sample == ...)`; progress comes from the entries, so
-- there is one.
unfoldable pub start_sample :
    BatchPlan → List SampleProgress → SampleProgress → List BatchPlanEntry → Planned BatchAssessment
start_sample plan progress p [] = err no_such_entry
start_sample plan progress p (e ∷ rest) =
    let later = start_sample plan progress p rest in
    if e.sample == p.sample
    then (do
      settings ← settings_for plan.template e (remainder p)
      ok (start_decision progress e.sample settings))
    else later

-- Nothing is left to wait for or to report: paused, complete, or the next exposure.
unfoldable pub assess_next :
    BatchPlan
    → ControllerSnapshot
    → Bool
    → List SampleProgress
    → Option SampleProgress
    → Planned BatchAssessment
assess_next plan controller paused_by_hand progress first_incomplete =
    if paused_by_hand
    then ok (decide_only progress paused manually_paused)
    else elim first_incomplete [
      | none ↦ ok (decide_only progress complete all_met)
      | some p ↦
          if not controller.available
          then ok (decide_only progress wait_controller (controller_unavailable controller.error))
          else if not controller.idle || is_some controller.current_run_uuid
          then ok (decide_only progress wait_controller controller_busy)
          else start_sample plan progress p plan.entries
    ]

unfoldable pub or_else {ℓ} : {A : Type ℓ} → Option A → Planned A → Planned A
or_else (some a) rest = ok a
or_else none rest = rest

pub record Inputs : Type 0 where
  pub now : Float
  pub acknowledged_runs : List ℕ
  pub blocked_repair_runs : List ℕ
  pub paused_by_hand : Bool
  pub config : AssessmentConfig

-- The stages about the runs that have ended, whose list is in order of creation.
unfoldable pub assess_terminal :
    BatchPlan → ControllerSnapshot → Inputs → List ExposureAttempt → Planned BatchAssessment
assess_terminal plan controller i terminal =
    let empty_progress = progress_for plan [] i.config in
    let progress = progress_for plan terminal i.config in
    let latest = latest_by_sample terminal in
    let blockers =
      select (λ a. has_status aborted a && not (member a.run_uuid i.acknowledged_runs)) latest in
    let first_incomplete = find_first is_under progress in
    or_else
      (assess_finalizing empty_progress
        (select (is_finalizing i.now i.config.finalization_delay) terminal))
      (or_else (assess_status empty_progress terminal) (
        or_else (assess_repair empty_progress i.blocked_repair_runs terminal) (
          or_else (assess_metrics i.config empty_progress terminal) (
            or_else (assess_aborted progress blockers) (
              or_else (assess_short progress i.acknowledged_runs latest first_incomplete)
                (assess_next plan controller i.paused_by_hand progress first_incomplete))))))

abbrev pub error_decision :
    List SampleProgress → Option (ExposureAttempt × AttemptError) → Option BatchAssessment
error_decision progress none = none
error_decision progress (some (a, e)) = some (decide_run progress pause_error (invalid_attempt e) a)

-- `assess_batch`
unfoldable pub assess_batch :
    BatchPlan → List ExposureAttempt → ControllerSnapshot → Inputs → Planned BatchAssessment
assess_batch plan attempts controller i =
    if is_finite i.now
    then (let ordered = sort_attempts attempts in
        let terminal = select is_terminal ordered in
        or_else
          (error_decision (progress_for plan [] i.config)
            (first_error (samples plan.entries) ordered))
          (or_else
            (assess_active (progress_for plan terminal i.config) controller
              (select is_active ordered))
            (assess_terminal plan controller i terminal)))
    else err time_not_finite
