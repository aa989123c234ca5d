-- ===== src/Batch/Service/Served/Polls.antt =====
-- That the polls of class BatchControllerSubsystem, src/chamber_ctl/subsystems/batch_controller.py,
-- come to their end.
use chamber_ctl.Batch.Service.Served.{
  Runs, finish_assessment-Ran, finish_starting-Ran, then-Runs, skip-Runs, set_phase-Runs,
  store-Runs, call-Runs, set_coordinator-Runs, checked-Runs, if-Runs, ask-Runs, on_coordinator-Runs,
  set_lease-Runs, set_active-Runs, remember-Runs, set_attempts-Runs, close_active-Runs,
}
use chamber_ctl.Batch.Coordinator.Fuel.{HasRuns, poll_once_ends}
use chamber_ctl.Batch.Coordinator.Poll.{poll_once, exposure_to_start, has_tag, start_next}
use chamber_ctl.Batch.Coordinator.{BatchCoordinator, Sources}
use chamber_ctl.Batch.Service.{
  cancelled_after_run, cancelling, cancellation_pending, Notice, save_control_state,
}
use chamber_ctl.Batch.Manifest.{
  automatic, manual, cancelled, BatchManifest, ManifestStatus, check_manifest, ExecutionMode,
}
use chamber_ctl.Batch.Decision.{
  complete, pause_error, pause_failure, start_remainder, BatchDecision, BatchDecisionKind,
}
use chamber_ctl.Batch.Service.Steps.{Plant, sorted_runs, same_runs, with_runs}
use chamber_ctl.Batch.Service.Poll.{
  own_lease, ensure_for, ensure_runtime, replace_active, keep_active, sync_for, sync_control,
  give_lease, finish_for, finish_active, cancel_when_idle, start_if, start_automatically,
  conclude_kind, conclude, poll_with, poll_for, poll_active, save_control, poll_coordinator,
  start_exposure, coordinator_for,
}
use chamber_ctl.Prelude.{
  some, none, true, false, ok, err, ◌≡◌, refl, inl, inr, suc, Bool, Option, List, Text, ℕ, is_some,
  Option-cases, length, subst, sym, Bool-cases, any,
}

start_next_ends :
    {W : Type 0} (sources : Sources W) (fuel : ℕ) (run_tags : List Text) (c : BatchCoordinator)
    (w : W)
    → is_some (poll_once sources fuel c w) ≡ true
    → is_some (start_next sources fuel run_tags c w) ≡ true
unfolding start_next
start_next_ends sources fuel run_tags c w ends = elim (Option-cases (poll_once sources fuel c w)) [
  | inl n ↦ let impossible = rw n at ends in cc
  | inr ((err e, c', w'), n) ↦ rw (n, start_next) refl
  | inr ((ok a, c', w'), n) ↦ elim (Option-cases (exposure_to_start a.decision)) [
    | inl m ↦ rw (n, m, start_next) refl
    | inr (settings, m) ↦
        elim (Bool-cases (any (λ tag. has_tag tag c'.plan.template.source_tags) run_tags)) [
          | inl conflict ↦ rw (n, m, conflict, start_next) refl
          | inr free ↦ rw (n, m, free, start_next) refl
        ]
  ]
]

-- A poll of the coordinator has enough fuel when the history has no other runs than `runs`.
pub record HasFuel {E W : Type 0} (plant : Plant E W) : Type 0 where
  pub runs : List ℕ
  pub history : HasRuns plant.sources runs
  pub enough : plant.poll_fuel ≡ suc (length runs)

module _ {E W : Type 0} {plant : Plant E W} (fueled : HasFuel plant) where
  poll_ends :
      (c : BatchCoordinator) (w : W) → is_some (poll_once plant.sources plant.poll_fuel c w) ≡ true
  poll_ends c w =
      subst (λ n. is_some (poll_once plant.sources n c w) ≡ true) (sym fueled.enough)
        (poll_once_ends plant.sources fueled.runs c w fueled.history)

  poll_coordinator-Runs : (c : BatchCoordinator) → Runs (poll_coordinator plant c)
  unfolding poll_coordinator
  poll_coordinator-Runs c s h = finish_assessment-Ran s _ (poll_ends c s.world) h

  pub start_exposure-Runs : (c : BatchCoordinator) → Runs (start_exposure plant c)
  unfolding start_exposure
  start_exposure-Runs c s h =
      finish_starting-Ran s _
        (start_next_ends plant.sources plant.poll_fuel _ c s.world (poll_ends c s.world)) h

  pub save_control-Runs : (m : BatchManifest) → Runs (save_control plant m)
  unfolding save_control
  save_control-Runs m =
      then-Runs (store-Runs (save_control_state plant.library m)) (λ saved. skip-Runs)

  own_lease-Runs : (owned : Bool) → Runs (own_lease plant owned)
  unfolding own_lease
  own_lease-Runs true = skip-Runs
  own_lease-Runs false =
      then-Runs (call-Runs plant.acquire_automation) (λ done. set_lease-Runs true)

  ensure_for-Runs :
      (a : Option BatchManifest) (c : Option BatchCoordinator) (owned : Bool)
      → Runs (ensure_for plant a c owned)
  unfolding ensure_for
  ensure_for-Runs none c owned = skip-Runs
  ensure_for-Runs (some m) (some c) owned = skip-Runs
  ensure_for-Runs (some m) none owned =
      then-Runs (own_lease-Runs owned)
        (λ done. set_coordinator-Runs (some (coordinator_for plant m)))

  pub ensure_runtime-Runs : Runs (ensure_runtime plant)
  unfolding ensure_runtime
  ensure_runtime-Runs s h =
      ensure_for-Runs s.service.active_manifest s.coordinator s.service.lease_owned s h

  pub replace_active-Runs : (m : BatchManifest) → Runs (replace_active plant m)
  unfolding replace_active keep_active
  replace_active-Runs m = then-Runs (checked-Runs (check_manifest m)) (λ m'.
      then-Runs (set_active-Runs m')
        (λ done. then-Runs (save_control-Runs m') (λ done. remember-Runs m')))

  sync_for-Runs :
      (a : Option BatchManifest) (c : Option BatchCoordinator) → Runs (sync_for plant a c)
  unfolding sync_for
  sync_for-Runs none c = skip-Runs
  sync_for-Runs (some m) none = skip-Runs
  sync_for-Runs (some m) (some c) =
      let runs = sorted_runs c.acknowledged_runs in
      if-Runs (same_runs runs m.acknowledged_runs) skip-Runs (
        then-Runs (ask-Runs plant.sources.wall_clock)
          (λ now. replace_active-Runs (with_runs runs now m)))

  sync_control-Runs : Runs (sync_control plant)
  unfolding sync_control
  sync_control-Runs s h = sync_for-Runs s.service.active_manifest s.coordinator s h

  give_lease-Runs : (owned : Bool) → Runs (give_lease plant owned)
  unfolding give_lease
  give_lease-Runs false = skip-Runs
  give_lease-Runs true =
      then-Runs (call-Runs plant.release_automation) (λ done. set_lease-Runs false)

  finish_for-Runs :
      (status : ManifestStatus) (message : Notice) (a : Option BatchManifest)
      → Runs (finish_for plant status message a)
  unfolding finish_for
  finish_for-Runs status message none = skip-Runs
  finish_for-Runs status message (some m) = then-Runs (ask-Runs plant.sources.wall_clock) (λ now.
      then-Runs (λ s h. checked-Runs _ s h)
        (λ m'. then-Runs (save_control-Runs m') (λ done. then-Runs (remember-Runs m') (λ done.
          then-Runs (set_coordinator-Runs none) (λ done.
            then-Runs (λ s h. give_lease-Runs s.service.lease_owned s h)
              (λ done. close_active-Runs status message m'))))))

  finish_active-Runs :
      (status : ManifestStatus) (message : Notice) → Runs (finish_active plant status message)
  unfolding finish_active
  finish_active-Runs status message s h =
      finish_for-Runs status message s.service.active_manifest s h

  cancel_when_idle-Runs : (d : BatchDecision) → Runs (cancel_when_idle plant d)
  unfolding cancel_when_idle
  cancel_when_idle-Runs d = then-Runs (call-Runs plant.sources.snapshot) (λ state.
      if-Runs _ (finish_active-Runs cancelled cancelled_after_run)
        (set_phase-Runs cancelling cancellation_pending))

  start_if-Runs :
      (allowed : Bool) (d : BatchDecision) (mode : ExecutionMode)
      → Runs (start_if plant allowed d mode)
  unfolding start_if start_automatically
  start_if-Runs allowed d manual = set_phase-Runs _ _
  start_if-Runs false d automatic = set_phase-Runs _ _
  start_if-Runs true d automatic =
      then-Runs (λ s h. on_coordinator-Runs _ s.coordinator start_exposure-Runs s h)
        (λ r. set_phase-Runs _ _)

  conclude_kind-Runs :
      (allowed : Bool) (k : BatchDecisionKind) (d : BatchDecision) (m : BatchManifest)
      → Runs (conclude_kind plant allowed k d m)
  unfolding conclude_kind
  conclude_kind-Runs allowed complete d m = finish_active-Runs _ _
  conclude_kind-Runs allowed pause_error d m = set_phase-Runs _ _
  conclude_kind-Runs allowed pause_failure d m = set_phase-Runs _ _
  conclude_kind-Runs allowed start_remainder d m =
      if-Runs m.paused (set_phase-Runs _ _)
        (λ s h. start_if-Runs allowed d s.service.execution_mode s h)
  conclude_kind-Runs allowed k d m = if-Runs m.paused (set_phase-Runs _ _) (set_phase-Runs _ _)

  conclude-Runs :
      (allowed : Bool) (d : BatchDecision) (a : Option BatchManifest)
      → Runs (conclude plant allowed d a)
  unfolding conclude
  conclude-Runs allowed d none = skip-Runs
  conclude-Runs allowed d (some m) =
      if-Runs m.cancel_pending (cancel_when_idle-Runs d) (conclude_kind-Runs allowed d.kind d m)

  poll_with-Runs : (allowed : Bool) (c : Option BatchCoordinator) → Runs (poll_with plant allowed c)
  unfolding poll_with
  poll_with-Runs allowed none = skip-Runs
  poll_with-Runs allowed (some c) = then-Runs (poll_coordinator-Runs c) (λ a.
      then-Runs (call-Runs plant.sources.load_attempts) (λ attempts.
        then-Runs (set_attempts-Runs attempts) (λ done.
          then-Runs sync_control-Runs
            (λ done s h. conclude-Runs allowed a.decision s.service.active_manifest s h))))

  poll_for-Runs : (allowed : Bool) (a : Option BatchManifest) → Runs (poll_for plant allowed a)
  unfolding poll_for
  poll_for-Runs allowed none = skip-Runs
  poll_for-Runs allowed (some m) =
      then-Runs ensure_runtime-Runs (λ done s h. poll_with-Runs allowed s.coordinator s h)

  pub poll_active-Runs : (allowed : Bool) → Runs (poll_active plant allowed)
  unfolding poll_active
  poll_active-Runs allowed s h = poll_for-Runs allowed s.service.active_manifest s h
