-- ===== src/Batch/Service.antt =====
-- The state of the batch service and how it starts: `_load_manifests` of class
-- BatchControllerSubsystem, src/chamber_ctl/subsystems/batch_controller.py, over any database.
pub mod Restored
pub mod Withdraw
pub mod Withdrawn
pub mod Proc
pub mod Steps
pub mod Poll
pub mod Commands
pub mod Execute
pub mod Loop
pub mod Rules
pub mod Halted
pub mod Served
pub mod Finished
use chamber_ctl.Batch.Plan.{Error}
use chamber_ctl.Batch.Decision.{BatchDecisionKind, Message}
use chamber_ctl.Batch.Coordinator.Poll.{StartResult}
use chamber_ctl.Batch.Storage.Listing.{LoadError, list_manifests, is_older}
use chamber_ctl.Batch.Storage.{Library, save_control_state, Tag, text_tag}
use chamber_ctl.Batch.Manifest.{
  BatchManifest, StorageError, ManifestStatus, ExecutionMode, check_manifest, active, completed,
  cancelled, manual,
}
use chamber_ctl.Prelude.{
  ℕ, List, [], ◌∷◌, Option, none, some, Bool, true, false, Result, ok, err, ◌>>=◌, Float, length,
  select, put_key, ◌==◌, codes, text_eq, if◌then◌else◌, Text,
}

pub data ServicePhase : Type 0 where
  starting start_error error restart_paused idle cancelling : ServicePhase
  error_paused failure_paused batch_paused waiting_continue : ServicePhase
  finished : ManifestStatus → ServicePhase
  decided : BatchDecisionKind → ServicePhase

-- What the commands raise themselves.
pub data CommandError : Type 0 where
  no_such_manifest is_active_batch already_archived not_withdrawn : CommandError
  not_new_status archived_edit edit_while_running plan_locked : CommandError
  unreadable_active another_active not_activatable empty_plan : CommandError
  no_active_batch not_manual not_resumed not_waiting unknown_command : CommandError
  command_failed : StorageError → CommandError

-- What the service's functions raise; `no_coordinator` is the AttributeError of a method of None.
pub data ServiceError : Type 0 where
  several_active no_coordinator : ServiceError
  storage_failed : StorageError → ServiceError
  refused : CommandError → ServiceError
  bus_failed : Text → ServiceError
  planner_failed : Error → ServiceError
  start_refused : StartResult → ServiceError

-- The texts of `_message`.
pub data Notice : Type 0 where
  is_starting restored_paused no_active is_paused needs_continue : Notice
  cancelled_after_run cancellation_pending : Notice
  cannot_resume skipped : (manifests : ℕ) → Notice
  decision_message : Message → Notice
  start_message : StartResult → Notice
  failed : ServiceError → Notice

pub record BatchController (E : Type 0) : Type 0 where
  pub manifests : List (ℕ × BatchManifest)
  pub load_errors : List (LoadError E)
  pub active_manifest : Option BatchManifest
  pub display_manifest : Option BatchManifest
  pub lease_owned : Bool
  pub execution_mode : ExecutionMode
  pub phase : ServicePhase
  pub message : Notice
  pub last_error : Option ServiceError

unfoldable pub make_service : {E : Type 0} → BatchController E
make_service = record {
  manifests = [];
  load_errors = [];
  active_manifest = none;
  display_manifest = none;
  lease_owned = false;
  execution_mode = manual;
  phase = starting;
  message = is_starting;
  last_error = none;
}

abbrev pub is_active_status : ManifestStatus → Bool
is_active_status active = true
is_active_status _ = false

-- `status in (COMPLETED, CANCELLED)`
abbrev pub is_terminal_status : ManifestStatus → Bool
is_terminal_status completed = true
is_terminal_status cancelled = true
is_terminal_status _ = false

-- `error.status == ManifestStatus.ACTIVE.value`
abbrev pub is_active_tag : Option Tag → Bool
is_active_tag (some (text_tag t)) = text_eq t (codes "active")
is_active_tag _ = false

-- `{manifest.batch_uuid: manifest for manifest in manifests}`
abbrev pub by_uuid : List (ℕ × BatchManifest) → List BatchManifest → List (ℕ × BatchManifest)
by_uuid d [] = d
by_uuid d (m ∷ ms) = by_uuid (put_key (◌==◌) m.batch_uuid m d) ms

-- `max(manifests, key=..., default=None)`, the first of the greatest.
abbrev pub newest_from : BatchManifest → List BatchManifest → BatchManifest
newest_from best [] = best
newest_from best (m ∷ ms) = newest_from (if is_older best m then m else best) ms

abbrev pub newest : List BatchManifest → Option BatchManifest
newest [] = none
newest (m ∷ ms) = some (newest_from m ms)

abbrev pub in_storage {ℓ} : {A : Type ℓ} → Result StorageError A → Result ServiceError A
in_storage (ok a) = ok a
in_storage (err e) = err (storage_failed e)

abbrev pub paused_at : Float → BatchManifest → BatchManifest
paused_at now m = record m { paused = true; updated_at = now }

abbrev pub with_restored : {E : Type 0} → BatchManifest → BatchController E → BatchController E
with_restored restored c = record c {
  manifests = put_key (◌==◌) restored.batch_uuid restored c.manifests;
  active_manifest = some restored;
  display_manifest = some restored;
  phase = restart_paused;
  message = restored_paused;
}

module _ {E W : Type 0} (library : Library E W) where
  abbrev pub save_restored :
      BatchController E → W → BatchManifest → Result StorageError (BatchController E × W)
  save_restored c w restored = do
    saved ← save_control_state library restored w
    ok (with_restored restored c, saved.1)

  -- The one active manifest is restored paused.
  unfoldable pub restore :
      BatchManifest
      → (now : Float) → BatchController E
      → W
      → Result StorageError (BatchController E × W)
  restore m now c w = do restored ← check_manifest (paused_at now m); save_restored c w restored

  abbrev pub notice_of : List (LoadError E) → Notice
  notice_of [] = no_active
  notice_of (e ∷ errors) = skipped (length (e ∷ errors))

  abbrev pub first_error_of : List (LoadError E) → Option ServiceError → Option ServiceError
  first_error_of [] before = before
  first_error_of (e ∷ errors) before = some (storage_failed e.error)

  -- No batch is active: the newest archived one is shown.
  unfoldable pub rest_idle : List BatchManifest → BatchController E → BatchController E
  rest_idle manifests c = record c {
    display_manifest = newest (select (λ m. is_terminal_status m.status) manifests);
    phase = idle;
    message = notice_of c.load_errors;
  }

  unfoldable pub resume_active :
      List BatchManifest
      → List BatchManifest
      → Float
      → BatchController E
      → W
      → Result ServiceError (BatchController E × W)
  resume_active manifests [] now c w = ok (rest_idle manifests c, w)
  resume_active manifests (m ∷ []) now c w = in_storage (restore m now c w)
  resume_active manifests (m ∷ other ∷ rest) now c w = err several_active

  unfoldable pub resume_unless :
      List (LoadError E)
      → List BatchManifest
      → Float
      → BatchController E
      → W
      → Result ServiceError (BatchController E × W)
  resume_unless [] manifests now c w =
      resume_active manifests (select (λ m. is_active_status m.status) manifests) now
        (record c { last_error = first_error_of c.load_errors c.last_error }) w
  resume_unless (e ∷ unreadable) manifests now c w = ok (
    record c {
      phase = error;
      last_error = some (storage_failed e.error);
      message = cannot_resume (length (e ∷ unreadable));
    },
    w,
  )

  -- `_load_manifests`
  unfoldable pub load_manifests :
      Float → BatchController E → W → Result ServiceError (BatchController E × W)
  load_manifests now c w =
      let (manifests, errors) = list_manifests library w in
      resume_unless (select (λ e. is_active_tag e.status) errors) manifests now
        (record c {
          execution_mode = manual;
          load_errors = errors;
          manifests = by_uuid [] manifests;
        })
        w
