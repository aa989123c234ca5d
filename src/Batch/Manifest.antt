-- ===== src/Batch/Manifest.antt =====
-- The manifest of a batch: class BatchManifest of src/chamber_ctl/subsystems/batcher.py. A revision
-- is a natural number, and a negative one is refused like 0.
use chamber_ctl.Batch.Plan.{BatchPlan}
use chamber_ctl.Prelude.{
  ℕ, Text, List, Float, Bool, Result, ok, ◌>>◌, guard, leb, is_finite, flt, not, ◌&&◌, strip,
  text_eq, [], codes,
}

pub data ManifestStatus : Type 0 where
  draft submitted active completed cancelled withdrawn : ManifestStatus

pub data ExecutionMode : Type 0 where
  automatic manual : ExecutionMode

-- The errors of manifests and of their repository.
pub data StorageError : Type 0 where
  bad_revision bad_timestamps time_reversed empty_origin : StorageError
  several_records already_exists not_found : StorageError
  revision_conflict : (expected current : ℕ) → StorageError
  revision_not_next revision_exists control_changes_revision : StorageError
  unreadable : Text → StorageError

pub record BatchManifest : Type 0 where
  pub batch_uuid : ℕ
  pub revision : ℕ
  pub status : ManifestStatus
  pub mode : ExecutionMode
  pub plan : BatchPlan
  pub created_at : Float
  pub updated_at : Float
  pub origin : Text
  pub submitted_by : Text
  pub paused : Bool
  pub cancel_pending : Bool
  pub acknowledged_runs : List ℕ
  pub revision_note : Text

-- `BatchManifest.__post_init__`
unfoldable pub check_manifest : BatchManifest → Result StorageError BatchManifest
unfolding strip
check_manifest m = do
  guard (leb 1 m.revision) bad_revision
  guard (is_finite m.created_at && is_finite m.updated_at) bad_timestamps
  guard (not (flt m.updated_at m.created_at)) time_reversed
  guard (not (text_eq (strip m.origin) [])) empty_origin
  ok m

-- The `value` of a status and of a mode.
abbrev pub status_value : ManifestStatus → Text
status_value draft = codes "draft"
status_value submitted = codes "submitted"
status_value active = codes "active"
status_value completed = codes "completed"
status_value cancelled = codes "cancelled"
status_value withdrawn = codes "withdrawn"

abbrev pub mode_value : ExecutionMode → Text
mode_value automatic = codes "automatic"
mode_value manual = codes "manual"
