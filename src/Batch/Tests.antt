-- ===== src/Batch/Tests.antt =====
-- The planner's theorems at concrete inputs, and what `assess_batch` of
-- src/chamber_ctl/subsystems/batcher.py does on them.
use chamber_ctl.Batch.Generate.{
  apply_plan_generator, ordered_samples, target_assignment, generate_each, keep_overrides,
  GeneratorApplication,
}
use chamber_ctl.Batch.Assess.Settled.{IsSettled}
use chamber_ctl.Batch.Order.{
  sort_from, insert_attempt, latest_of, latest_from, put_latest, sort_attempts,
}
use chamber_ctl.Prelude.{
  ℕ, ◌≡◌, refl, List, [], ◌∷◌, true, false, some, none, pos, Float, fin, codes, All, zero_float,
  ◌+◌, strip, upper, ◌-ℤ◌, ◌+ℤ◌, Option, Bool, ok, err, map,
}
use chamber_ctl.Batch.Plan.{
  ExposureTemplate, BatchPlan, dose, time, make_entry, normalized_overrides, make_plan, real,
  Planned,
}
use chamber_ctl.Batch.Settings.{settings_for, ExposureSettings}
use chamber_ctl.Batch.Attempt.{
  ExposureAttempt, AssessmentConfig, progress_for, progress_of, attempt_error, metrics_need_repair,
  has_status,
}
use chamber_ctl.Batch.Decision.{
  ControllerSnapshot, BatchAssessment, complete, decide_only, paused, manually_paused,
}
use chamber_ctl.Batch.Assess.{
  assess_batch, Inputs, assess_terminal, assess_next, assess_active, assess_finalizing,
  assess_status, assess_repair, assess_metrics, assess_aborted, assess_short, start_sample,
  first_error, or_else, is_under,
}
use chamber_ctl.Batch.Assess.Start.{assess_batch-complete}
use chamber_ctl.Batch.Assess.Total.{assess_batch_total, IsConfig}

abbrev pub template : ExposureTemplate
template = record {
  name = codes "contrast";
  description = [];
  operator = codes "ab";
  zr_filter = codes "200nm";
  sample_type = codes "resist";
  base_pressure = fin (pos 3);
  operating_pressure = fin (pos 4);
  flow_sccm = fin (pos 5);
  calibration_profile_id = [];
  calibration_revision = pos 0;
  chopper_frequency_hz = some (fin (pos 192));
  source_tags = [];
}

-- Sample 4 for a dose of 500, and sample 7 for a time of 60.
abbrev pub plan : BatchPlan
plan = record {
  template = template;
  entries =
      record { sample = 4; mode = dose; target = fin (pos 500); overrides = [] }
      ∷ record { sample = 7; mode = time; target = fin (pos 60); overrides = [] }
      ∷ [];
}

abbrev pub run_on : ℕ → ℕ → ℕ → ℕ → ExposureAttempt
run_on uuid sample amount seconds = record {
  run_uuid = uuid;
  sample = some (pos sample);
  created_at = fin (pos (1000 + uuid));
  end_time = some (fin (pos (1100 + uuid)));
  status = some (codes " stopped ");
  end_reason = none;
  dose = some (fin (pos amount));
  runtime = some (fin (pos seconds));
  snapshot_count = pos 3;
  validation_error = none;
}

abbrev pub stopped_controller : ControllerSnapshot
stopped_controller = record { available = true; idle = true; current_run_uuid = none; error = none }

abbrev pub config : AssessmentConfig
config = record {
  finalization_delay = fin (pos 5);
  dose_tolerance = fin (pos 1);
  time_tolerance = fin (pos 5);
  minimum_dose = zero_float;
  minimum_runtime = zero_float;
}

abbrev pub inputs : Inputs
inputs = record {
  now = fin (pos 2000);
  acknowledged_runs = 21 ∷ [];
  blocked_repair_runs = [];
  paused_by_hand = false;
  config = config;
}

-- The first run of sample 4 stopped at 300 and was acknowledged; sample 7 has its time.
abbrev pub short : List ExposureAttempt
short = run_on 22 7 10 61 ∷ run_on 21 4 300 40 ∷ []

abbrev done : List ExposureAttempt
done = run_on 22 7 10 61 ∷ run_on 23 4 200 40 ∷ run_on 21 4 300 40 ∷ []

planner : Unit {0}
unfolding assess_batch assess_terminal assess_next assess_active assess_finalizing assess_status
    assess_repair assess_metrics assess_aborted assess_short start_sample first_error or_else
    sort_from insert_attempt latest_of latest_from put_latest progress_for progress_of attempt_error
    metrics_need_repair has_status settings_for strip upper ◌-ℤ◌ ◌+ℤ◌
planner = tt

generating : Unit {0}
unfolding apply_plan_generator ordered_samples target_assignment generate_each keep_overrides
    make_entry normalized_overrides make_plan
generating = tt

abbrev started : BatchAssessment
unfolding planner
started = elim (assess_batch plan short stopped_controller inputs) [
  | ok a ↦ a
  | err e ↦ decide_only [] paused manually_paused
]

abbrev started_dose : Option ExposureSettings → Option Float
started_dose none = none
started_dose (some s) = some s.target_dose

-- Sample 4 still lacks 200, and that is what is started.
started_target : started_dose started.decision.settings ≡ some (fin (pos 200))
unfolding planner
started_target = refl

abbrev completed : BatchAssessment
unfolding planner
completed = elim (assess_batch plan done stopped_controller inputs) [
  | ok a ↦ a
  | err e ↦ decide_only [] paused manually_paused
]

assess-done : assess_batch plan done stopped_controller inputs ≡ ok completed
unfolding planner
assess-done = refl

completed_kind : completed.decision.kind ≡ complete
unfolding planner
completed_kind = refl

assess_batch-complete_example :
    All (IsSettled plan inputs) done
    × ◌≡◌ {A = Bool} false false
    × All (λ p. is_under p ≡ false) (progress_for plan (sort_attempts done) config)
    × (completed.progress ≡ progress_for plan (sort_attempts done) config)
assess_batch-complete_example =
    assess_batch-complete plan stopped_controller inputs done assess-done completed_kind

config-IsConfig : IsConfig config
config-IsConfig = record { dose_ok = (refl, refl); time_ok = (refl, refl) }

assess_batch_total_example :
    (a : BatchAssessment) × (assess_batch plan short stopped_controller inputs ≡ ok a)
assess_batch_total_example =
    assess_batch_total plan short stopped_controller inputs config-IsConfig (refl, (refl, tt)) refl

-- Sample 7 gets a dose of 250, and sample 9 comes in.
abbrev reassigned : Planned GeneratorApplication
reassigned =
    apply_plan_generator plan (target_assignment (codes "dose") (real (fin (pos 250))))
      (pos 7 ∷ pos 9 ∷ [])

abbrev reassignment : GeneratorApplication
unfolding generating
reassignment = elim reassigned [
  | ok a ↦ a
  | err e ↦ record { plan = plan; samples = []; generated_entries = [] }
]

reassigned_order : map (λ e. e.sample) reassignment.plan.entries ≡ 4 ∷ 7 ∷ 9 ∷ []
unfolding generating
reassigned_order = refl
