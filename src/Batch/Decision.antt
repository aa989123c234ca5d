-- ===== src/Batch/Decision.antt =====
-- What the planner is told of the exposure controller, and what it decides: ControllerSnapshot,
-- BatchDecision and `_decision` of src/chamber_ctl/subsystems/batcher.py.
use chamber_ctl.Prelude.{true, false, ℕ, Bool, Option, none, some, List, ℤ, Text}
use chamber_ctl.Batch.Settings.{ExposureSettings}
use chamber_ctl.Batch.Attempt.{ExposureAttempt, SampleProgress, AttemptError}

pub record ControllerSnapshot : Type 0 where
  pub available : Bool
  pub idle : Bool
  pub current_run_uuid : Option ℕ
  pub error : Option Text

pub data BatchDecisionKind : Type 0 where
  wait_controller wait_active wait_finalization repair_metrics pause_error pause_failure :
      BatchDecisionKind
  paused start_remainder complete : BatchDecisionKind

-- The message of a decision: which text it is, with what the text shows.
pub data Message : Type 0 where
  invalid_attempt : AttemptError → Message
  several_unterminated controller_busy still_active not_current_run : Message
  controller_unavailable : Option Text → Message
  finalizing unknown_status repair_exhausted needs_repair non_finite_metrics : Message
  dose_below_minimum runtime_below_minimum run_aborted remains_below_target : Message
  manually_paused all_met sample_needs : Message
  source_failed : (failures limit : ℕ) → Text → Message
  planner_error_latched : Message → Message
  source_error_latched : Text → Message
  empty_message : Message

pub record BatchDecision : Type 0 where
  pub kind : BatchDecisionKind
  pub message : Message
  pub run_uuid : Option ℕ
  pub sample : Option ℤ
  pub settings : Option ExposureSettings

pub record BatchAssessment : Type 0 where
  pub progress : List SampleProgress
  pub decision : BatchDecision

-- `_decision(progress, kind, message, attempt=attempt)`, and with no attempt.
abbrev pub decide_run :
    List SampleProgress → BatchDecisionKind → Message → ExposureAttempt → BatchAssessment
decide_run progress kind message a = record {
  progress = progress;
  decision = record {
    kind = kind;
    message = message;
    run_uuid = some a.run_uuid;
    sample = a.sample;
    settings = none;
  };
}

abbrev pub decide_only : List SampleProgress → BatchDecisionKind → Message → BatchAssessment
decide_only progress kind message = record {
  progress = progress;
  decision = record {
    kind = kind;
    message = message;
    run_uuid = none;
    sample = none;
    settings = none;
  };
}

-- `kind is BatchDecisionKind.REPAIR_METRICS`
abbrev pub is_repair : BatchDecisionKind → Bool
is_repair repair_metrics = true
is_repair _ = false
