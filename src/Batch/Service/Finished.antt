-- ===== src/Batch/Service/Finished.antt =====
-- What `_finish_active` of class BatchControllerSubsystem,
use chamber_ctl.Batch.Coordinator.{BatchCoordinator}
use chamber_ctl.Batch.Plan.{member}
use chamber_ctl.Batch.Service.Steps.{Plant}
use chamber_ctl.Batch.Service.{finished, ManifestStatus, BatchManifest, Notice, save_control_state}
use chamber_ctl.Batch.Service.Proc.{Running, Outcome}
use chamber_ctl.Batch.Service.Rules.{Post}
use chamber_ctl.Prelude.{some, none, true, false, ok, ◌≡◌, ◌==◌, get_key, ℕ, List, Option, []}

-- src/chamber_ctl/subsystems/batch_controller.py, leaves when it returns.

module _ {E W : Type 0} (plant : Plant E W) where
  -- Some runs are those that a coordinator has acknowledged, if there is one.
  abbrev pub IsAcknowledged : Option BatchCoordinator → List ℕ → Type 0
  IsAcknowledged none runs = runs ≡ []
  IsAcknowledged (some c) runs = (run : ℕ) → member run runs ≡ member run c.acknowledged_runs

  -- The batch `m` of the state `s` is over: it is known and shown as it was saved, with the status, the
  -- runs that were acknowledged, no pending cancellation, and paused, at the time that the clock
  -- showed, and otherwise as it was; nothing is active, there is no coordinator, and the lease is given
  -- back.
  pub record IsFinished (status : ManifestStatus) (message : Notice) (s : Running E W)
      (m : BatchManifest) (t : Running E W) : Type 0 where
    pub archived : BatchManifest
    pub archived_as : archived ≡ record m {
      status = status;
      paused = true;
      cancel_pending = false;
      acknowledged_runs = archived.acknowledged_runs;
      updated_at = (plant.sources.wall_clock s.world).0;
    }
    pub acknowledged : IsAcknowledged s.coordinator archived.acknowledged_runs
    pub before : W
    pub after : BatchManifest × W
    pub saved : save_control_state plant.library archived before ≡ ok after
    pub known : get_key (◌==◌) m.batch_uuid t.service.manifests ≡ some archived
    pub shown : t.service.display_manifest ≡ some archived
    pub inactive : t.service.active_manifest ≡ none
    pub stopped : t.coordinator ≡ none
    pub released : t.service.lease_owned ≡ false
    pub phase : t.service.phase ≡ finished status
    pub noticed : t.service.message ≡ message

  abbrev Ends : {A : Type 0} → (A → Running E W → Type 0) → Outcome E W A → Type 0
  Ends R = Post R (λ s. Unit {0})

  -- What was saved of the manifest.
  abbrev IsKept : BatchManifest → Running E W → Type 0
  IsKept m t = (w : W) × (r : BatchManifest × W) × (save_control_state plant.library m w ≡ ok r)

  -- The lease is given back and nothing else of the service changes.
  abbrev IsReleased : Running E W → Running E W → Type 0
  IsReleased s t =
      (t.service.lease_owned ≡ false)
      × (t.coordinator ≡ s.coordinator)
      × (t.service.manifests ≡ s.service.manifests)
