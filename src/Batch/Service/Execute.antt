-- ===== src/Batch/Service/Execute.antt =====
-- What the commands do: `_execute_command` of class BatchControllerSubsystem,
-- src/chamber_ctl/subsystems/batch_controller.py.
use chamber_ctl.Batch.Service.Commands.{
  Reply, Command, phase_reply, manifest_reply, is_new_status, is_archived, has_unreadable_active,
  wants_start, mode_reply, creates, as_updated, may_activate, start_reply, new_manifest,
  has_entries, gets, as_active, updates, activates, as_paused, as_resumed, as_cancelling, sets_mode,
  withdraws, unwithdraws, unknown, pauses, resumes, continues, cancels, refreshes,
}
use chamber_ctl.Batch.Service.Withdraw.{withdraw, unwithdraw}
use chamber_ctl.Batch.Storage.{create, save_revision}
use chamber_ctl.Batch.Service.{
  BatchController, refused, CommandError, not_new_status, edit_while_running, start_refused,
  no_such_manifest, plan_locked, no_active_batch, not_manual, archived_edit, unreadable_active,
  not_resumed, not_waiting, starting, unknown_command, start_message, another_active,
  not_activatable, empty_plan,
}
use chamber_ctl.Batch.Coordinator.{BatchCoordinator, pause, update_plan, resume}
use chamber_ctl.Batch.Plan.{BatchPlan}
use chamber_ctl.Batch.Service.Steps.{
  set_active, set_phase, Plant, on_coordinator, set_coordinator, remember, set_lease,
}
use chamber_ctl.Batch.Service.Poll.{
  start_exposure, read_time, poll_active, replace_active, save_control, ensure_runtime,
}
use chamber_ctl.Prelude.{
  ◌==◌, some, none, true, false, ok, err, not, ◌&&◌, if◌then◌else◌, ℕ, Option, Float, Result, Bool,
  get_key, Text, is_some,
}
use chamber_ctl.Batch.Coordinator.Poll.{started, StartResult}
use chamber_ctl.Batch.Manifest.{
  active, automatic, manual, BatchManifest, ManifestStatus, ExecutionMode, check_manifest,
}
use chamber_ctl.Batch.Service.Proc.{
  ◌>>=◌, ◌>>◌, return, skip, raise, reading, require, set_service, call, checked, store, Running,
  Proc, Outcome,
}

module _ {E W : Type 0} where
  -- `_manifest`
  abbrev pub found : Option BatchManifest → Proc E W BatchManifest
  found none = raise (refused no_such_manifest)
  found (some m) = return m

  unfoldable pub find_manifest : ℕ → Proc E W BatchManifest
  find_manifest batch_uuid = reading (λ s. found (get_key (◌==◌) batch_uuid s.service.manifests))

  abbrev pub reply_phase : Proc E W Reply
  reply_phase = reading (λ s. return (phase_reply s.service.phase))

  abbrev pub show_active : BatchManifest → Proc E W (Unit {0})
  show_active m =
      set_service (λ c. record c { active_manifest = some m; display_manifest = some m })

  abbrev pub put_mode : ExecutionMode → Proc E W (Unit {0})
  put_mode mode = set_service (λ c. record c { execution_mode = mode })

  -- A method of the coordinator that does not raise.
  unfoldable pub change_coordinator : (BatchCoordinator → BatchCoordinator) → Proc E W (Unit {0})
  change_coordinator f =
      reading (λ s. on_coordinator (λ c. set_coordinator (some (f c))) s.coordinator)

  -- `self._coordinator.update_plan(...)`
  abbrev pub planned_again : Option BatchCoordinator → Proc E W (Unit {0})
  planned_again none = raise (refused plan_locked)
  planned_again (some c) = set_coordinator (some c)

  unfoldable pub replan : BatchPlan → Proc E W (Unit {0})
  replan plan =
      reading (λ s. on_coordinator (λ c. planned_again (update_plan plan c)) s.coordinator)

  -- The active manifest becomes the updated one.
  unfoldable pub follow_update : BatchManifest → Option BatchManifest → Proc E W (Unit {0})
  follow_update m none = skip
  follow_update m (some current) =
      if current.batch_uuid == m.batch_uuid then (do set_active m; replan m.plan) else skip

  -- The change by a function of the service without its coordinator.
  abbrev pub finish_change :
      Running E W → Result CommandError (BatchManifest × BatchController E × W) → Outcome E W Reply
  finish_change s (ok (m, c, w)) = some (ok (manifest_reply m), record s { service = c; world = w })
  finish_change s (err e) = some (err (refused e), s)

  unfoldable pub change :
      (BatchController E → W → Result CommandError (BatchManifest × BatchController E × W))
      → Proc E W Reply
  change f s = finish_change s (f s.service s.world)

module _ {E W : Type 0} (plant : Plant E W) where
  unfoldable pub create_manifest : BatchManifest → Proc E W Reply
  create_manifest given = do
    require (is_new_status given.status) not_new_status
    m ← checked (check_manifest given)
    stored ← store (create plant.library m)
    remember m
    return (manifest_reply m)

  -- An active batch is edited only while the controller is idle.
  unfoldable pub allow_edit : ManifestStatus → Proc E W (Unit {0})
  allow_edit active = do
    state ← call plant.sources.snapshot
    require (state.available && state.idle) edit_while_running
  allow_edit _ = skip

  unfoldable pub update_manifest :
      ℕ → ℕ → BatchPlan → Option ExecutionMode → Text → Float → Proc E W Reply
  update_manifest batch_uuid expected_revision plan mode note now = do
    current ← find_manifest batch_uuid
    require (not (is_archived current.status)) archived_edit
    allow_edit current.status
    m ← checked (check_manifest (as_updated expected_revision plan mode note now current))
    stored ← store (save_revision plant.library m expected_revision)
    remember m
    reading (λ s. follow_update m s.service.active_manifest)
    return (manifest_reply m)

  unfoldable pub activate_manifest : ℕ → Float → Proc E W Reply
  activate_manifest batch_uuid now = do
    reading (λ s. require (not (has_unreadable_active s.service)) unreadable_active)
    reading (λ s. require (not (is_some s.service.active_manifest)) another_active)
    known ← find_manifest batch_uuid
    require (may_activate known.status) not_activatable
    require (has_entries known.plan) empty_plan
    call plant.acquire_automation
    set_lease true
    m ← checked (check_manifest (as_active now known))
    save_control plant m
    remember m
    show_active m
    ensure_runtime plant
    poll_active plant true
    return (manifest_reply m)

  -- The active batch after a change of the coordinator and of the manifest.
  unfoldable pub control_for :
      (BatchCoordinator → BatchCoordinator)
      → (BatchManifest → BatchManifest)
      → (allowed : Bool) → Option BatchManifest
      → Proc E W Reply
  control_for f g allowed none = raise (refused no_active_batch)
  control_for f g allowed (some m) = do
    change_coordinator f
    replace_active plant (g m)
    poll_active plant allowed
    reply_phase

  unfoldable pub control :
      (BatchCoordinator → BatchCoordinator)
      → (BatchManifest → BatchManifest)
      → (allowed : Bool) → Proc E W Reply
  control f g allowed = reading (λ s. control_for f g allowed s.service.active_manifest)

  abbrev pub must_have_started : StartResult → Proc E W (Unit {0})
  must_have_started (started settings) = skip
  must_have_started r = raise (start_refused r)

  unfoldable pub continue_for : Option BatchManifest → ExecutionMode → Proc E W Reply
  continue_for none mode = raise (refused not_manual)
  continue_for (some m) automatic = raise (refused not_manual)
  continue_for (some m) manual = do
    require (not m.paused) not_resumed
    poll_active plant false
    reading (λ s. require (wants_start s.assessment) not_waiting)
    r ← reading (λ s. on_coordinator (start_exposure plant) s.coordinator)
    must_have_started r
    set_phase starting (start_message r)
    return (start_reply r)

  unfoldable pub set_mode : ExecutionMode → Proc E W Reply
  set_mode mode = do put_mode mode; poll_active plant true; return (mode_reply mode)

  unfoldable pub execute_at : Command → Float → Proc E W Reply
  execute_at (creates batch_uuid status mode plan origin submitted_by note) now =
      create_manifest (new_manifest batch_uuid status mode plan origin submitted_by note now)
  execute_at (gets batch_uuid) now = do m ← find_manifest batch_uuid; return (manifest_reply m)
  execute_at (updates batch_uuid expected_revision plan mode note) now =
      update_manifest batch_uuid expected_revision plan mode note now
  execute_at (activates batch_uuid) now = activate_manifest batch_uuid now
  execute_at pauses now = control pause (as_paused now) false
  execute_at resumes now = control resume (as_resumed now) true
  execute_at continues now =
      reading (λ s. continue_for s.service.active_manifest s.service.execution_mode)
  execute_at cancels now = control pause (as_cancelling now) false
  execute_at refreshes now = do poll_active plant false; reply_phase
  execute_at (sets_mode mode) now = set_mode mode
  execute_at (withdraws batch_uuid) now = change (withdraw plant.library batch_uuid now)
  execute_at (unwithdraws batch_uuid) now = change (unwithdraw plant.library batch_uuid now)
  execute_at (unknown name) now = raise (refused unknown_command)

  -- `_execute_command`
  unfoldable pub execute : Command → Proc E W Reply
  execute command = do now ← read_time plant; execute_at command now
