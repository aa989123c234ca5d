-- ===== src/Batch/Service/Poll.antt =====
-- The polling of the active batch: `_ensure_active_runtime`, `_sync_active_control`, `_poll_active` and
-- `_finish_active` of class BatchControllerSubsystem, src/chamber_ctl/subsystems/batch_controller.py.
use chamber_ctl.Batch.Service.Steps.{
  Plant, finish_assessment, finish_starting, set_lease, set_coordinator, set_active, sorted_runs,
  as_finished, is_unfinished, on_coordinator, set_phase, set_attempts, remember, same_runs, runs_of,
  start_phase, pause_notice, with_runs, close_active,
}
use chamber_ctl.Batch.Service.Proc.{Proc, ◌>>=◌, ◌>>◌, skip, reading, call, ask, store, checked}
use chamber_ctl.Batch.Service.{
  Notice, decided, error_paused, failure_paused, batch_paused, waiting_continue, cancelling,
  decision_message, start_message, needs_continue, cancelled_after_run, cancellation_pending,
}
use chamber_ctl.Batch.Storage.{save_control_state}
use chamber_ctl.Batch.Manifest.{
  BatchManifest, ManifestStatus, ExecutionMode, automatic, manual, check_manifest, completed,
  cancelled,
}
use chamber_ctl.Batch.Coordinator.{BatchCoordinator, make_coordinator}
use chamber_ctl.Batch.Coordinator.Poll.{poll_once, start_next, StartResult}
use chamber_ctl.Batch.Decision.{
  BatchAssessment, BatchDecision, BatchDecisionKind, complete, pause_error, pause_failure,
  start_remainder,
}
use chamber_ctl.Prelude.{
  [], ◌∷◌, Option, none, some, Bool, true, false, not, ◌&&◌, Float, codes, if◌then◌else◌,
}

module _ {E W : Type 0} (plant : Plant E W) where
  abbrev pub read_time : Proc E W Float
  read_time = ask plant.sources.wall_clock

  unfoldable pub poll_coordinator : BatchCoordinator → Proc E W BatchAssessment
  poll_coordinator c s = finish_assessment s (poll_once plant.sources plant.poll_fuel c s.world)

  unfoldable pub start_exposure : BatchCoordinator → Proc E W StartResult
  start_exposure c s =
      finish_starting s
        (start_next plant.sources plant.poll_fuel (codes "batch_revision" ∷ []) c s.world)

  unfoldable pub save_control : BatchManifest → Proc E W (Unit {0})
  save_control m = do saved ← store (save_control_state plant.library m); skip

  -- The lease that `_ensure_active_runtime` takes.
  unfoldable pub own_lease : Bool → Proc E W (Unit {0})
  own_lease true = skip
  own_lease false = do call plant.acquire_automation; set_lease true

  abbrev pub coordinator_for : BatchManifest → BatchCoordinator
  coordinator_for m = make_coordinator m.plan plant.config m.acknowledged_runs m.paused

  unfoldable pub ensure_for :
      Option BatchManifest → Option BatchCoordinator → Bool → Proc E W (Unit {0})
  ensure_for none c owned = skip
  ensure_for (some m) (some c) owned = skip
  ensure_for (some m) none owned = do own_lease owned; set_coordinator (some (coordinator_for m))

  -- `_ensure_active_runtime`
  unfoldable pub ensure_runtime : Proc E W (Unit {0})
  ensure_runtime =
      reading (λ s. ensure_for s.service.active_manifest s.coordinator s.service.lease_owned)

  -- The active manifest is replaced, saved and put among the known ones.
  unfoldable pub keep_active : BatchManifest → Proc E W (Unit {0})
  keep_active m = do set_active m; save_control m; remember m

  unfoldable pub replace_active : BatchManifest → Proc E W (Unit {0})
  replace_active changed = do m ← checked (check_manifest changed); keep_active m

  unfoldable pub sync_for : Option BatchManifest → Option BatchCoordinator → Proc E W (Unit {0})
  sync_for none c = skip
  sync_for (some m) none = skip
  sync_for (some m) (some c) =
      let runs = sorted_runs c.acknowledged_runs in
      if same_runs runs m.acknowledged_runs
      then skip
      else (do now ← read_time; replace_active (with_runs runs now m))

  -- `_sync_active_control`
  unfoldable pub sync_control : Proc E W (Unit {0})
  sync_control = reading (λ s. sync_for s.service.active_manifest s.coordinator)

  unfoldable pub give_lease : Bool → Proc E W (Unit {0})
  give_lease false = skip
  give_lease true = do call plant.release_automation; set_lease false

  unfoldable pub finish_for : ManifestStatus → Notice → Option BatchManifest → Proc E W (Unit {0})
  finish_for status message none = skip
  finish_for status message (some m) = do
    now ← read_time
    m' ← reading (λ s. checked (check_manifest (as_finished status (runs_of s.coordinator) now m)))
    save_control m'
    remember m'
    set_coordinator none
    reading (λ s. give_lease s.service.lease_owned)
    close_active status message m'

  -- `_finish_active`
  unfoldable pub finish_active : ManifestStatus → Notice → Proc E W (Unit {0})
  finish_active status message = reading (λ s. finish_for status message s.service.active_manifest)

  -- The end of a batch that is to be cancelled.
  unfoldable pub cancel_when_idle : BatchDecision → Proc E W (Unit {0})
  cancel_when_idle d = do
    state ← call plant.sources.snapshot
    if state.available && state.idle && not (is_unfinished d.kind)
        then finish_active cancelled cancelled_after_run
        else set_phase cancelling cancellation_pending

  -- A start of the next exposure, in the automatic mode.
  unfoldable pub start_automatically : Proc E W (Unit {0})
  start_automatically = do
    r ← reading (λ s. on_coordinator start_exposure s.coordinator)
    set_phase (start_phase r) (start_message r)

  unfoldable pub start_if : (allowed : Bool) → BatchDecision → ExecutionMode → Proc E W (Unit {0})
  start_if allowed d manual = set_phase waiting_continue needs_continue
  start_if true d automatic = start_automatically
  start_if false d automatic = set_phase (decided d.kind) (decision_message d.message)

  unfoldable pub conclude_kind :
      (allowed : Bool) → BatchDecisionKind → BatchDecision → BatchManifest → Proc E W (Unit {0})
  conclude_kind allowed complete d m = finish_active completed (decision_message d.message)
  conclude_kind allowed pause_error d m = set_phase error_paused (decision_message d.message)
  conclude_kind allowed pause_failure d m = set_phase failure_paused (decision_message d.message)
  conclude_kind allowed start_remainder d m =
      if m.paused
      then set_phase batch_paused (pause_notice d)
      else reading (λ s. start_if allowed d s.service.execution_mode)
  conclude_kind allowed kind d m =
      if m.paused
      then set_phase batch_paused (pause_notice d)
      else set_phase (decided d.kind) (decision_message d.message)

  unfoldable pub conclude :
      (allowed : Bool) → BatchDecision → Option BatchManifest → Proc E W (Unit {0})
  conclude allowed d none = skip
  conclude allowed d (some m) =
      if m.cancel_pending then cancel_when_idle d else conclude_kind allowed d.kind d m

  unfoldable pub poll_with : (allowed : Bool) → Option BatchCoordinator → Proc E W (Unit {0})
  poll_with allowed none = skip
  poll_with allowed (some c) = do
    a ← poll_coordinator c
    attempts ← call plant.sources.load_attempts
    set_attempts attempts
    sync_control
    reading (λ s. conclude allowed a.decision s.service.active_manifest)

  unfoldable pub poll_for : (allowed : Bool) → Option BatchManifest → Proc E W (Unit {0})
  poll_for allowed none = skip
  poll_for allowed (some m) = do ensure_runtime; reading (λ s. poll_with allowed s.coordinator)

  -- `_poll_active`
  unfoldable pub poll_active : (allowed : Bool) → Proc E W (Unit {0})
  poll_active allowed = reading (λ s. poll_for allowed s.service.active_manifest)
