-- ===== src/Batch/Service/Withdraw.antt =====
-- The commands that put a manifest aside and back: `withdraw` and `unwithdraw` in `_execute_command`
-- of class BatchControllerSubsystem, src/chamber_ctl/subsystems/batch_controller.py.
use chamber_ctl.Batch.Service.{
  BatchController, is_active_status, is_terminal_status, CommandError, no_such_manifest,
  command_failed, is_active_batch, not_withdrawn, already_archived,
}
use chamber_ctl.Batch.Storage.{Library, save_control_state}
use chamber_ctl.Batch.Manifest.{
  BatchManifest, StorageError, ManifestStatus, check_manifest, withdrawn, draft,
}
use chamber_ctl.Prelude.{
  ℕ, Option, none, some, Bool, true, false, Result, ok, err, ◌>>=◌, ◌>>◌, Float, guard, get_key,
  put_key, ◌==◌, codes, not, ◌||◌,
}

abbrev pub is_withdrawn : ManifestStatus → Bool
is_withdrawn withdrawn = true
is_withdrawn _ = false

-- `_manifest`
abbrev pub known_manifest : Option BatchManifest → Result CommandError BatchManifest
known_manifest none = err no_such_manifest
known_manifest (some m) = ok m

abbrev pub or_failed {ℓ} : {A : Type ℓ} → Result StorageError A → Result CommandError A
or_failed (ok a) = ok a
or_failed (err e) = err (command_failed e)

-- The manifests that the commands accept.
abbrev pub may_withdraw : BatchManifest → Result CommandError (Unit {0})
may_withdraw m = do
  guard (not (is_active_status m.status)) is_active_batch
  guard (not (is_terminal_status m.status || is_withdrawn m.status)) already_archived
  ok tt

abbrev pub may_unwithdraw : BatchManifest → Result CommandError (Unit {0})
may_unwithdraw m = do guard (is_withdrawn m.status) not_withdrawn; ok tt

abbrev pub as_withdrawn : Float → BatchManifest → BatchManifest
as_withdrawn now m = record m { status = withdrawn; paused = true; updated_at = now }

abbrev pub as_restored : Float → BatchManifest → BatchManifest
as_restored now m = record m {
  status = draft;
  paused = true;
  cancel_pending = false;
  updated_at = now;
  revision_note = codes "Restored from withdrawn";
}

module _ {E W : Type 0} (library : Library E W) where
  -- The save of a changed manifest and its place in `_manifests`.
  unfoldable pub keep_changed :
      BatchManifest
      → BatchController E
      → W
      → Result CommandError (BatchManifest × BatchController E × W)
  keep_changed m c w = do
    changed ← or_failed (check_manifest m)
    saved ← or_failed (save_control_state library changed w)
    ok (
      changed,
      record c { manifests = put_key (◌==◌) changed.batch_uuid changed c.manifests },
      saved.1,
    )

  unfoldable pub manifest_of : ℕ → BatchController E → Result CommandError BatchManifest
  manifest_of batch_uuid c = known_manifest (get_key (◌==◌) batch_uuid c.manifests)

  unfoldable pub withdraw :
      ℕ
      → Float
      → BatchController E
      → W
      → Result CommandError (BatchManifest × BatchController E × W)
  withdraw batch_uuid now c w = do
    m ← manifest_of batch_uuid c
    may_withdraw m
    keep_changed (as_withdrawn now m) c w

  unfoldable pub unwithdraw :
      ℕ
      → Float
      → BatchController E
      → W
      → Result CommandError (BatchManifest × BatchController E × W)
  unwithdraw batch_uuid now c w = do
    m ← manifest_of batch_uuid c
    may_unwithdraw m
    keep_changed (as_restored now m) c w
