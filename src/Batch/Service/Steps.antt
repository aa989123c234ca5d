-- ===== src/Batch/Service/Steps.antt =====
-- What the batch service works with, and the small steps of its functions: class
-- BatchControllerSubsystem of src/chamber_ctl/subsystems/batch_controller.py.
use chamber_ctl.Batch.Attempt.{ExposureAttempt}
use chamber_ctl.Batch.Service.Proc.{Running, Proc, Outcome, raise, modify, set_service}
use chamber_ctl.Batch.Service.{
  ServicePhase, Notice, no_coordinator, planner_failed, finished, starting, start_error,
  decision_message, is_paused,
}
use chamber_ctl.Batch.Storage.{Library}
use chamber_ctl.Batch.Manifest.{BatchManifest, ManifestStatus, ExecutionMode, automatic, manual}
use chamber_ctl.Batch.Coordinator.{Sources, BatchCoordinator, BatchCoordinatorConfig}
use chamber_ctl.Batch.Coordinator.Poll.{StartResult, started, start_raised, cannot_start}
use chamber_ctl.Batch.Plan.{Planned}
use chamber_ctl.Batch.Decision.{
  BatchAssessment, BatchDecision, BatchDecisionKind, wait_active, wait_finalization, repair_metrics,
  paused,
}
use chamber_ctl.Prelude.{
  ℕ, List, [], ◌∷◌, Option, none, some, Bool, true, false, ◌&&◌, Result, ok, err, Float, Text,
  put_key, ◌==◌, ltb, if◌then◌else◌,
}

-- What the service works with: the database, the sources of the coordinator, and the lease of the
-- exposure controller, whose refusals raise. `poll_fuel` is the fuel of a poll of the coordinator.
pub record Plant (E W : Type 0) : Type 0 where
  pub library : Library E W
  pub sources : Sources W
  pub acquire_automation : W → Result Text (Unit {0}) × W
  pub release_automation : W → Result Text (Unit {0}) × W
  pub config : BatchCoordinatorConfig
  pub poll_fuel : ℕ

-- `tuple(sorted(runs, key=str))` of a set.
abbrev pub insert_run : ℕ → List ℕ → List ℕ
insert_run run [] = run ∷ []
insert_run run (x ∷ xs) =
    let later = insert_run run xs in
    if ltb run x then run ∷ x ∷ xs else if run == x then x ∷ xs else x ∷ later

abbrev pub sorted_runs : List ℕ → List ℕ
sorted_runs [] = []
sorted_runs (run ∷ runs) = insert_run run (sorted_runs runs)

abbrev pub same_runs : List ℕ → List ℕ → Bool
same_runs [] [] = true
same_runs (a ∷ l) (b ∷ r) = a == b && same_runs l r
same_runs _ _ = false

-- `replace(self._active, ...)` of each function.
abbrev pub with_runs : List ℕ → Float → BatchManifest → BatchManifest
with_runs runs now m = record m { acknowledged_runs = runs; updated_at = now }

abbrev pub runs_of : Option BatchCoordinator → List ℕ
runs_of none = []
runs_of (some c) = sorted_runs c.acknowledged_runs

abbrev pub as_finished : ManifestStatus → List ℕ → Float → BatchManifest → BatchManifest
as_finished status runs now m = record m {
  status = status;
  paused = true;
  cancel_pending = false;
  acknowledged_runs = runs;
  updated_at = now;
}

-- The kinds that keep a cancelled batch waiting.
abbrev pub is_unfinished : BatchDecisionKind → Bool
is_unfinished wait_active = true
is_unfinished wait_finalization = true
is_unfinished repair_metrics = true
is_unfinished _ = false

abbrev pub pause_notice : BatchDecision → Notice
pause_notice d = elim d.kind [ paused ↦ decision_message d.message | _ ↦ is_paused ]

abbrev pub is_manual : ExecutionMode → Bool
is_manual manual = true
is_manual automatic = false

abbrev pub start_phase : StartResult → ServicePhase
start_phase (started settings) = starting
start_phase (start_raised text) = start_error
start_phase (cannot_start kind message) = start_error

module _ {E W : Type 0} where
  abbrev pub set_phase : ServicePhase → Notice → Proc E W (Unit {0})
  set_phase phase message = set_service (λ c. record c { phase = phase; message = message })

  abbrev pub set_active : BatchManifest → Proc E W (Unit {0})
  set_active m = set_service (λ c. record c { active_manifest = some m })

  -- `self._manifests[manifest.batch_uuid] = manifest`
  abbrev pub remember : BatchManifest → Proc E W (Unit {0})
  remember m = set_service (λ c. record c { manifests = put_key (◌==◌) m.batch_uuid m c.manifests })

  abbrev pub set_coordinator : Option BatchCoordinator → Proc E W (Unit {0})
  set_coordinator c = modify (λ s. record s { coordinator = c })

  -- A method of `self._coordinator`.
  abbrev pub on_coordinator :
      {A : Type 0} → (BatchCoordinator → Proc E W A) → Option BatchCoordinator → Proc E W A
  on_coordinator f none = raise no_coordinator
  on_coordinator f (some c) = f c

  -- What a poll of the coordinator and a start leave.
  abbrev pub finish_assessment :
      Running E W
      → Option (Planned BatchAssessment × BatchCoordinator × W)
      → Outcome E W BatchAssessment
  finish_assessment s none = none
  finish_assessment s (some (ok a, c, w)) =
      some (ok a, record s { coordinator = some c; assessment = some a; world = w })
  finish_assessment s (some (err e, c, w)) =
      some (err (planner_failed e), record s { coordinator = some c; world = w })

  abbrev pub finish_starting :
      Running E W → Option (Planned StartResult × BatchCoordinator × W) → Outcome E W StartResult
  finish_starting s none = none
  finish_starting s (some (ok r, c, w)) = some (ok r, record s { coordinator = some c; world = w })
  finish_starting s (some (err e, c, w)) =
      some (err (planner_failed e), record s { coordinator = some c; world = w })

  abbrev pub set_lease : Bool → Proc E W (Unit {0})
  set_lease owned = set_service (λ c. record c { lease_owned = owned })

  abbrev pub set_attempts : List ExposureAttempt → Proc E W (Unit {0})
  set_attempts attempts = modify (λ s. record s { attempts = attempts })

  abbrev pub close_active : ManifestStatus → Notice → BatchManifest → Proc E W (Unit {0})
  close_active status message m = set_service (λ c. record c {
    active_manifest = none;
    display_manifest = some m;
    phase = finished status;
    message = message;
  })
