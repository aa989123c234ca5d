-- ===== src/Batch/Service/Halted/Polls.antt =====
-- The polls of a halted batch service: `_ensure_active_runtime`, `_sync_active_control`,
use chamber_ctl.Batch.Service.{
  Notice, cancelled_after_run, cancelling, cancellation_pending, no_coordinator,
}
use chamber_ctl.Batch.Service.Halted.Steps.{
  skip-IsHalted, call-IsHalted, set_coordinator-IsHalted, read_time-IsHalted, set_phase-IsHalted,
  poll_coordinator-IsHalted, set_active-IsHalted, save_control-IsHalted, raise-IsHalted,
  remember-IsHalted, with_paused, paused_compatible, start_exposure-IsHalted, close_active-IsHalted,
  set_lease-IsHalted, set_attempts-IsHalted,
}
use chamber_ctl.Batch.Service.Proc.{Proc}
use chamber_ctl.Batch.Service.Halted.{
  IsPlantUntouched, is_paused_batch, IsHalted, is_paused_by_hand,
}
use chamber_ctl.Batch.Service.Steps.{
  Plant, sorted_runs, same_runs, on_coordinator, with_runs, as_finished, runs_of,
}
use chamber_ctl.Batch.Service.Poll.{
  own_lease, ensure_for, ensure_runtime, replace_active, keep_active, sync_for, sync_control,
  give_lease, finish_for, finish_active, cancel_when_idle, start_if, start_automatically,
  conclude_kind, conclude, poll_with, poll_for, poll_active, coordinator_for, start_exposure,
}
use chamber_ctl.Batch.Coordinator.{make_coordinator, BatchCoordinator}
use chamber_ctl.Batch.Manifest.{
  automatic, manual, cancelled, BatchManifest, ManifestStatus, ExecutionMode,
}
use chamber_ctl.Batch.Decision.{
  complete, pause_error, pause_failure, start_remainder, BatchDecision, BatchDecisionKind,
}
use chamber_ctl.Batch.Service.Rules.{Keeps, then-Keeps, given-Keeps, if-Keeps, checked-Gives}
use chamber_ctl.Prelude.{some, none, true, false, ◌≡◌, arith, refl, ℕ, Bool, Option}

-- `_poll_active` and `_finish_active` of class BatchControllerSubsystem,
-- src/chamber_ctl/subsystems/batch_controller.py.

module _ {E W : Type 0} (batch_uuid : ℕ) {P : W → Type 0} {plant : Plant E W}
    (kept : IsPlantUntouched plant P) where
  abbrev pub Safe : {A : Type 0} → Proc E W A → Type 0
  Safe = Keeps (IsHalted batch_uuid P)

  own_lease-IsHalted : (owned : Bool) → Safe (own_lease plant owned)
  unfolding own_lease
  own_lease-IsHalted true = skip-IsHalted
  own_lease-IsHalted false =
      then-Keeps (call-IsHalted plant.acquire_automation kept.acquires)
        (λ done. set_lease-IsHalted true)

  ensure_for-IsHalted :
      (a : Option BatchManifest) (c : Option BatchCoordinator) (owned : Bool)
      → is_paused_batch batch_uuid a ≡ true
      → Safe (ensure_for plant a c owned)
  unfolding ensure_for make_coordinator
  ensure_for-IsHalted none c owned paused = skip-IsHalted
  ensure_for-IsHalted (some m) (some c) owned paused = skip-IsHalted
  ensure_for-IsHalted (some m) none owned paused =
      then-Keeps (own_lease-IsHalted owned)
        (λ done. set_coordinator-IsHalted (some (coordinator_for plant m)) (ground (arith, paused)))

  pub ensure_runtime-IsHalted : Safe (ensure_runtime plant)
  unfolding ensure_runtime
  ensure_runtime-IsHalted s h =
      ensure_for-IsHalted s.service.active_manifest s.coordinator s.service.lease_owned
        h.active_paused s h

  pub replace_active-IsHalted :
      (m : BatchManifest)
      → is_paused_batch batch_uuid (some m) ≡ true
      → Safe (replace_active plant m)
  unfolding replace_active keep_active
  replace_active-IsHalted m paused =
      given-Keeps (checked-Gives (λ x. is_paused_batch batch_uuid (some x) ≡ true) m paused)
        (λ m' still. then-Keeps (set_active-IsHalted m' still) (λ done.
          then-Keeps (save_control-IsHalted plant kept m')
            (λ done. remember-IsHalted m' (with_paused batch_uuid m' still))))

  sync_for-IsHalted :
      (a : Option BatchManifest) (c : Option BatchCoordinator)
      → is_paused_batch batch_uuid a ≡ true
      → Safe (sync_for plant a c)
  unfolding sync_for
  sync_for-IsHalted none c paused = skip-IsHalted
  sync_for-IsHalted (some m) none paused = skip-IsHalted
  sync_for-IsHalted (some m) (some c) paused =
      let runs = sorted_runs c.acknowledged_runs in
      if-Keeps (same_runs runs m.acknowledged_runs) skip-IsHalted (
        then-Keeps (read_time-IsHalted plant kept)
          (λ now. replace_active-IsHalted (with_runs runs now m) paused))

  sync_control-IsHalted : Safe (sync_control plant)
  unfolding sync_control
  sync_control-IsHalted s h =
      sync_for-IsHalted s.service.active_manifest s.coordinator h.active_paused s h

  give_lease-IsHalted : (owned : Bool) → Safe (give_lease plant owned)
  unfolding give_lease
  give_lease-IsHalted false = skip-IsHalted
  give_lease-IsHalted true =
      then-Keeps (call-IsHalted plant.release_automation kept.releases)
        (λ done. set_lease-IsHalted false)

  finish_for-IsHalted :
      (status : ManifestStatus) (message : Notice) (a : Option BatchManifest)
      → Safe (finish_for plant status message a)
  unfolding finish_for
  finish_for-IsHalted status message none = skip-IsHalted
  finish_for-IsHalted status message (some m) = then-Keeps (read_time-IsHalted plant kept) (λ now.
      given-Keeps
        (λ s h.
          checked-Gives (λ x. x.paused ≡ true) (as_finished status (runs_of s.coordinator) now m)
            refl s h)
        (λ m' paused. then-Keeps (save_control-IsHalted plant kept m') (λ done.
          then-Keeps (remember-IsHalted m' (paused_compatible batch_uuid m' paused)) (λ done.
            then-Keeps (set_coordinator-IsHalted none refl) (λ done.
              then-Keeps (λ s h. give_lease-IsHalted s.service.lease_owned s h)
                (λ done. close_active-IsHalted status message m'))))))

  finish_active-IsHalted :
      (status : ManifestStatus) (message : Notice) → Safe (finish_active plant status message)
  unfolding finish_active
  finish_active-IsHalted status message s h =
      finish_for-IsHalted status message s.service.active_manifest s h

  cancel_when_idle-IsHalted : (d : BatchDecision) → Safe (cancel_when_idle plant d)
  unfolding cancel_when_idle
  cancel_when_idle-IsHalted d =
      then-Keeps (call-IsHalted plant.sources.snapshot kept.sources.shows) (λ state.
        if-Keeps _ (finish_active-IsHalted cancelled cancelled_after_run)
          (set_phase-IsHalted cancelling cancellation_pending))

  -- A start by a coordinator that is paused by hand.
  pub start-IsHalted :
      (c : Option BatchCoordinator)
      → is_paused_by_hand c ≡ true
      → Safe (on_coordinator (start_exposure plant) c)
  start-IsHalted none paused = raise-IsHalted no_coordinator
  start-IsHalted (some c) paused = start_exposure-IsHalted plant kept c paused

  start_if-IsHalted :
      (allowed : Bool) (d : BatchDecision) (mode : ExecutionMode)
      → Safe (start_if plant allowed d mode)
  unfolding start_if start_automatically
  start_if-IsHalted allowed d manual = set_phase-IsHalted _ _
  start_if-IsHalted false d automatic = set_phase-IsHalted _ _
  start_if-IsHalted true d automatic =
      then-Keeps (λ s h. start-IsHalted s.coordinator h.coordinator_paused s h)
        (λ r. set_phase-IsHalted _ _)

  conclude_kind-IsHalted :
      (allowed : Bool) (k : BatchDecisionKind) (d : BatchDecision) (m : BatchManifest)
      → Safe (conclude_kind plant allowed k d m)
  unfolding conclude_kind
  conclude_kind-IsHalted allowed complete d m = finish_active-IsHalted _ _
  conclude_kind-IsHalted allowed pause_error d m = set_phase-IsHalted _ _
  conclude_kind-IsHalted allowed pause_failure d m = set_phase-IsHalted _ _
  conclude_kind-IsHalted allowed start_remainder d m =
      if-Keeps m.paused (set_phase-IsHalted _ _)
        (λ s h. start_if-IsHalted allowed d s.service.execution_mode s h)
  conclude_kind-IsHalted allowed k d m =
      if-Keeps m.paused (set_phase-IsHalted _ _) (set_phase-IsHalted _ _)

  conclude-IsHalted :
      (allowed : Bool) (d : BatchDecision) (a : Option BatchManifest)
      → Safe (conclude plant allowed d a)
  unfolding conclude
  conclude-IsHalted allowed d none = skip-IsHalted
  conclude-IsHalted allowed d (some m) =
      if-Keeps m.cancel_pending (cancel_when_idle-IsHalted d)
        (conclude_kind-IsHalted allowed d.kind d m)

  poll_with-IsHalted :
      (allowed : Bool) (c : Option BatchCoordinator)
      → is_paused_by_hand c ≡ true
      → Safe (poll_with plant allowed c)
  unfolding poll_with
  poll_with-IsHalted allowed none paused = skip-IsHalted
  poll_with-IsHalted allowed (some c) paused =
      then-Keeps (poll_coordinator-IsHalted plant kept c paused) (λ a.
        then-Keeps (call-IsHalted plant.sources.load_attempts kept.sources.loads) (λ attempts.
          then-Keeps (set_attempts-IsHalted attempts) (λ done.
            then-Keeps sync_control-IsHalted
              (λ done s h. conclude-IsHalted allowed a.decision s.service.active_manifest s h))))

  poll_for-IsHalted : (allowed : Bool) (a : Option BatchManifest) → Safe (poll_for plant allowed a)
  unfolding poll_for
  poll_for-IsHalted allowed none = skip-IsHalted
  poll_for-IsHalted allowed (some m) =
      then-Keeps ensure_runtime-IsHalted
        (λ done s h. poll_with-IsHalted allowed s.coordinator h.coordinator_paused s h)

  pub poll_active-IsHalted : (allowed : Bool) → Safe (poll_active plant allowed)
  unfolding poll_active
  poll_active-IsHalted allowed s h = poll_for-IsHalted allowed s.service.active_manifest s h
