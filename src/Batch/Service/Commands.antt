-- ===== src/Batch/Service/Commands.antt =====
-- The commands of the batch service: `_execute_command` of
-- class BatchControllerSubsystem, src/chamber_ctl/subsystems/batch_controller.py. A command holds its
-- arguments as they are after parsing, and a new identifier where the code draws one.
use chamber_ctl.Batch.Decision.{BatchAssessment}
use chamber_ctl.Batch.Service.{BatchController, ServicePhase, is_active_tag}
use chamber_ctl.Batch.Coordinator.{is_start}
use chamber_ctl.Batch.Plan.{BatchPlan}
use chamber_ctl.Prelude.{[], ◌∷◌, some, none, true, false, ◌+◌, ℕ, Option, Float, Bool, any, Text}
use chamber_ctl.Batch.Coordinator.Poll.{StartResult}
use chamber_ctl.Batch.Manifest.{
  draft, submitted, active, completed, cancelled, withdrawn, BatchManifest, ManifestStatus,
  ExecutionMode,
}

pub data Command : Type 0 where
  creates :
      (batch_uuid : ℕ)
      → ManifestStatus
      → ExecutionMode
      → BatchPlan
      → (origin submitted_by note : Text) → Command
  gets : (batch_uuid : ℕ) → Command
  updates :
      (batch_uuid expected_revision : ℕ)
      → BatchPlan
      → Option ExecutionMode
      → (note : Text) → Command
  activates : (batch_uuid : ℕ) → Command
  pauses resumes continues cancels refreshes : Command
  sets_mode : ExecutionMode → Command
  withdraws unwithdraws : (batch_uuid : ℕ) → Command
  unknown : Text → Command

-- What a command returns.
pub data Reply : Type 0 where
  manifest_reply : BatchManifest → Reply
  phase_reply : ServicePhase → Reply
  start_reply : StartResult → Reply
  mode_reply : ExecutionMode → Reply

-- The tests on the status of a manifest.
abbrev pub is_new_status : ManifestStatus → Bool
is_new_status draft = true
is_new_status submitted = true
is_new_status _ = false

abbrev pub is_archived : ManifestStatus → Bool
is_archived completed = true
is_archived cancelled = true
is_archived withdrawn = true
is_archived _ = false

abbrev pub may_activate : ManifestStatus → Bool
may_activate draft = true
may_activate submitted = true
may_activate cancelled = true
may_activate _ = false

abbrev pub has_entries : BatchPlan → Bool
has_entries plan = elim plan.entries [ [] ↦ false | x ∷ xs ↦ true ]

-- `_has_unreadable_active_manifest`
abbrev pub has_unreadable_active : {E : Type 0} → BatchController E → Bool
has_unreadable_active c = any (λ e. is_active_tag e.status) c.load_errors

abbrev pub given_mode : Option ExecutionMode → ExecutionMode → ExecutionMode
given_mode none current = current
given_mode (some mode) current = mode

abbrev pub wants_start : Option BatchAssessment → Bool
wants_start none = false
wants_start (some a) = is_start a.decision.kind

-- The manifests that the commands make.
abbrev pub new_manifest :
    ℕ → ManifestStatus → ExecutionMode → BatchPlan → Text → Text → Text → Float → BatchManifest
new_manifest batch_uuid status mode plan origin submitted_by note now = record {
  batch_uuid = batch_uuid;
  revision = 1;
  status = status;
  mode = mode;
  plan = plan;
  created_at = now;
  updated_at = now;
  origin = origin;
  submitted_by = submitted_by;
  paused = true;
  cancel_pending = false;
  acknowledged_runs = [];
  revision_note = note;
}

abbrev pub as_updated :
    ℕ → BatchPlan → Option ExecutionMode → Text → Float → BatchManifest → BatchManifest
as_updated expected_revision plan mode note now m = record m {
  revision = expected_revision + 1;
  plan = plan;
  mode = given_mode mode m.mode;
  updated_at = now;
  revision_note = note;
}

abbrev pub as_active : Float → BatchManifest → BatchManifest
as_active now m = record m {
  status = active;
  paused = false;
  cancel_pending = false;
  updated_at = now;
}

abbrev pub as_paused : Float → BatchManifest → BatchManifest
as_paused now m = record m { paused = true; updated_at = now }

abbrev pub as_resumed : Float → BatchManifest → BatchManifest
as_resumed now m = record m { paused = false; updated_at = now }

abbrev pub as_cancelling : Float → BatchManifest → BatchManifest
as_cancelling now m = record m { paused = true; cancel_pending = true; updated_at = now }
