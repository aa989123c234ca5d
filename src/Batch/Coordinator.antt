-- ===== src/Batch/Coordinator.antt =====
-- The polling of a batch: class BatchCoordinator of src/chamber_ctl/subsystems/batcher.py, with its
-- lock held from the start of each method to its end. What it prints is left out, with the
-- fingerprint that only decides whether to print.
pub mod Poll
pub mod Bounded
pub mod Tries
pub mod Fuel
pub mod Answer
pub mod Started
pub mod Held
pub mod Paused
pub mod Latched
use chamber_ctl.Batch.Assess.{assess_batch, Inputs}
use chamber_ctl.Prelude.{
  ℕ, Option, List, Text, Bool, true, Result, [], some, ◌∷◌, ◌+◌, ◌||◌, false, if◌then◌else◌, any,
  codes, err, Float, ◌==◌, ◌++◌, leb, find_first, ◌&&◌, none, ok, text_eq, not, suc, zero,
}
use chamber_ctl.Batch.Plan.{BatchPlan, Planned, member}
use chamber_ctl.Batch.Settings.{ExposureSettings}
use chamber_ctl.Batch.Attempt.{
  AssessmentConfig, SampleProgress, ExposureAttempt, progress_for, metrics_need_repair,
}
use chamber_ctl.Batch.Decision.{
  Message, BatchAssessment, BatchDecisionKind, BatchDecision, decide_only, ControllerSnapshot,
  empty_message, pause_error, wait_controller, planner_error_latched, source_error_latched,
  source_failed, repair_metrics, start_remainder, pause_failure, wait_active, paused, complete,
  is_repair,
}

-- BatchHistorySource and ControllerStateSource, with the clock, over the world `W` that they read and
-- change. An exception is its text.
pub record Sources (W : Type 0) : Type 0 where
  pub load_attempts : W → Result Text (List ExposureAttempt) × W
  pub repair_metrics : ℕ → W → Result Text (Float × Float) × W
  pub snapshot : W → Result Text ControllerSnapshot × W
  pub start_exposure : ExposureSettings → List Text → W → Result Text Text × W
  pub wall_clock : W → Float × W

pub record BatchCoordinatorConfig : Type 0 where
  pub assessment : AssessmentConfig
  pub repair_attempt_limit : ℕ
  pub source_failure_limit : ℕ

pub record BatchCoordinator : Type 0 where
  pub plan : BatchPlan
  pub config : BatchCoordinatorConfig
  pub manual_pause : Bool
  pub acknowledged_runs : List ℕ
  pub repair_attempts : List (ℕ × ℕ)
  pub blocked_repair_runs : List ℕ
  pub source_failures : ℕ
  pub source_error_paused : Bool
  pub source_error_message : Text
  pub logic_error_paused : Bool
  pub logic_error_message : Message
  pub last_assessment : Option BatchAssessment

unfoldable pub make_coordinator :
    BatchPlan → BatchCoordinatorConfig → List ℕ → Bool → BatchCoordinator
make_coordinator plan config acknowledged manually_paused = record {
  plan = plan;
  config = config;
  manual_pause = manually_paused;
  acknowledged_runs = acknowledged;
  repair_attempts = [];
  blocked_repair_runs = [];
  source_failures = 0;
  source_error_paused = false;
  source_error_message = [];
  logic_error_paused = false;
  logic_error_message = empty_message;
  last_assessment = none;
}

-- `_publish`
abbrev pub publish : BatchAssessment → BatchCoordinator → BatchCoordinator
publish a c = record c { last_assessment = some a }

-- A dictionary from runs to numbers: `get(run, 0)`, an assignment and `pop(run, None)`.
abbrev pub count_of : ℕ → List (ℕ × ℕ) → ℕ
count_of run [] = 0
count_of run ((key, n) ∷ rest) = let later = count_of run rest in if key == run then n else later

unfoldable pub put_count : ℕ → ℕ → List (ℕ × ℕ) → List (ℕ × ℕ)
put_count run n [] = (run, n) ∷ []
put_count run n ((key, m) ∷ rest) =
    let later = put_count run n rest in if key == run then (key, n) ∷ rest else (key, m) ∷ later

unfoldable pub pop_count : ℕ → List (ℕ × ℕ) → List (ℕ × ℕ)
pop_count run [] = []
pop_count run ((key, m) ∷ rest) =
    let later = pop_count run rest in if key == run then later else (key, m) ∷ later

-- The text of `RuntimeError(controller.error or "...")`.
abbrev pub unavailable_text : Option Text → Text
unavailable_text (some (letter ∷ letters)) = codes "RuntimeError: " ++ letter ∷ letters
unavailable_text _ = codes "RuntimeError: Exposure-controller state is unavailable."

-- `_source_failure_assessment`
abbrev pub progress_so_far : BatchCoordinator → List SampleProgress
progress_so_far c = elim c.last_assessment [
  | some a ↦ a.progress
  | none ↦ progress_for c.plan [] c.config.assessment
]

abbrev pub source_failure_assessment : Text → BatchCoordinator → BatchAssessment
source_failure_assessment message c =
    decide_only (progress_so_far c)
      (if leb c.config.source_failure_limit c.source_failures then pause_error else wait_controller)
      (source_failed c.source_failures c.config.source_failure_limit message)

-- The sources failed: they are counted, and latched at the limit.
unfoldable pub count_failure : Text → BatchCoordinator → BatchCoordinator × BatchAssessment
count_failure message c =
    let failures = c.source_failures + 1 in
    let reached = leb c.config.source_failure_limit failures in
    let c' = record c {
      source_failures = failures;
      source_error_paused = c.source_error_paused || reached;
      source_error_message = if reached then message else c.source_error_message;
    } in
    let a = source_failure_assessment message c' in (publish a c', a)

abbrev pub any_pause : BatchCoordinator → Bool
any_pause c = c.manual_pause || c.source_error_paused || c.logic_error_paused

abbrev pub inputs_of : BatchCoordinator → Float → Bool → Inputs
inputs_of c now paused_now = record {
  now = now;
  acknowledged_runs = c.acknowledged_runs;
  blocked_repair_runs = c.blocked_repair_runs;
  paused_by_hand = paused_now;
  config = c.config.assessment;
}

-- `assess_batch(self.plan, attempts, controller, ...)`
abbrev pub assess_now :
    BatchCoordinator
    → List ExposureAttempt
    → ControllerSnapshot
    → Float
    → Bool
    → Planned BatchAssessment
assess_now c attempts controller now paused_now =
    assess_batch c.plan attempts controller (inputs_of c now paused_now)

-- `kind is BatchDecisionKind.…`
abbrev pub is_start : BatchDecisionKind → Bool
is_start start_remainder = true
is_start _ = false

abbrev pub is_pause_failure : BatchDecisionKind → Bool
is_pause_failure pause_failure = true
is_pause_failure _ = false

abbrev pub is_wait_active : BatchDecisionKind → Bool
is_wait_active wait_active = true
is_wait_active _ = false

-- The run whose metrics the decision wants repaired, unless this poll has tried it.
abbrev pub wanted_repair : BatchDecision → List ℕ → Option ℕ
wanted_repair d repaired = elim d.run_uuid [
  | none ↦ none
  | some run ↦ if is_repair d.kind && not (member run repaired) then some run else none
]

-- The repaired run is among the loaded ones with its metrics.
abbrev pub is_repaired : ℕ → List ExposureAttempt → Bool
is_repaired run attempts = elim (find_first (λ a. a.run_uuid == run) attempts) [
  | none ↦ false
  | some a ↦ not (metrics_need_repair a)
]

-- Which error latches, and which latched error overrides the decision.
abbrev pub may_go_on : BatchDecisionKind → Bool
may_go_on paused = true
may_go_on start_remainder = true
may_go_on complete = true
may_go_on _ = false

abbrev pub is_pause_error : BatchDecisionKind → Bool
is_pause_error pause_error = true
is_pause_error _ = false

unfoldable pub latch_logic : BatchAssessment → BatchCoordinator → BatchCoordinator × BatchAssessment
latch_logic a c =
    if is_pause_error a.decision.kind
    then (record c { logic_error_paused = true; logic_error_message = a.decision.message }, a)
    else if c.logic_error_paused && may_go_on a.decision.kind
    then (c, decide_only a.progress pause_error (planner_error_latched c.logic_error_message))
    else (c, a)

unfoldable pub latch_source : BatchAssessment → BatchCoordinator → BatchAssessment
latch_source a c =
    if c.source_error_paused && may_go_on a.decision.kind
    then decide_only a.progress pause_error (source_error_latched c.source_error_message)
    else a

unfoldable pub latch : BatchAssessment → BatchCoordinator → BatchCoordinator × BatchAssessment
latch a c =
    let (c', a') = latch_logic a c in let last = latch_source a' c' in (publish last c', last)

unfoldable pub pause : BatchCoordinator → BatchCoordinator
pause c = record c { manual_pause = true }

-- The run that failed, which `resume` acknowledges.
abbrev pub failed_run : Option BatchAssessment → Option ℕ
failed_run none = none
failed_run (some a) = if is_pause_failure a.decision.kind then a.decision.run_uuid else none

unfoldable pub resume : BatchCoordinator → BatchCoordinator
resume c = record c {
  acknowledged_runs = elim (failed_run c.last_assessment) [
    | none ↦ c.acknowledged_runs
    | some run ↦ run ∷ c.acknowledged_runs
  ];
  manual_pause = false;
  source_error_paused = false;
  source_error_message = [];
  logic_error_paused = false;
  logic_error_message = empty_message;
  source_failures = 0;
  repair_attempts = [];
  blocked_repair_runs = [];
}

abbrev pub is_waiting_active : Option BatchAssessment → Bool
is_waiting_active none = false
is_waiting_active (some a) = is_wait_active a.decision.kind

-- `update_plan`; `none` is its RuntimeError.
unfoldable pub update_plan : BatchPlan → BatchCoordinator → Option BatchCoordinator
update_plan plan c =
    if is_waiting_active c.last_assessment
    then none
    else some (record c { plan = plan; last_assessment = none })
