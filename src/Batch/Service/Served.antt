-- ===== src/Batch/Service/Served.antt =====
-- That every function of class BatchControllerSubsystem, src/chamber_ctl/subsystems/batch_controller.py,
use chamber_ctl.Batch.Coordinator.Fuel.{HasRuns, poll_once_ends}
use chamber_ctl.Batch.Coordinator.Poll.{poll_once, exposure_to_start, has_tag, start_next}
use chamber_ctl.Batch.Service.Halted.{put_key-filed, is_filed}
use chamber_ctl.Batch.Plan.{Planned}
use chamber_ctl.Batch.Attempt.{ExposureAttempt}
use chamber_ctl.Batch.Coordinator.{BatchCoordinator, Sources}
use chamber_ctl.Batch.Service.{
  no_coordinator, cancelled_after_run, cancelling, cancellation_pending, BatchController,
  ServiceError, ServicePhase, CommandError, Notice, save_control_state, StartResult,
}
use chamber_ctl.Batch.Manifest.{
  automatic, manual, cancelled, BatchManifest, ManifestStatus, StorageError, check_manifest,
  ExecutionMode,
}
use chamber_ctl.Batch.Decision.{
  complete, pause_error, pause_failure, start_remainder, BatchDecision, BatchDecisionKind,
  BatchAssessment,
}
use chamber_ctl.Batch.Service.Steps.{
  Plant, remember, set_coordinator, set_lease, set_active, on_coordinator, sorted_runs, set_phase,
  set_attempts, close_active, same_runs, finish_assessment, finish_starting, with_runs,
}
use chamber_ctl.Batch.Service.Poll.{
  own_lease, ensure_for, ensure_runtime, replace_active, keep_active, sync_for, sync_control,
  give_lease, finish_for, finish_active, cancel_when_idle, start_if, start_automatically,
  conclude_kind, conclude, poll_with, poll_for, poll_active, save_control, poll_coordinator,
  start_exposure, coordinator_for,
}
use chamber_ctl.Batch.Service.Proc.{
  ◌>>=◌, return, raise, call, store, ask, set_service, Outcome, Proc, skip, Running, after, require,
  finish_call, finish_store, checked, reading,
}
use chamber_ctl.Prelude.{
  some, none, true, false, ok, err, [], ◌∷◌, ◌≡◌, ◌==◌, refl, inl, inr, suc, Bool, Result, Option,
  List, All, if◌then◌else◌, Text, ℕ, is_some, Option-cases, length, subst, sym, Bool-cases, any,
}
-- comes to its end and files each manifest under its identifier: the rules and the polls.
pub mod Polls
pub mod Commands
pub mod Passes

-- The manifests are under their identifiers.
abbrev pub AllFiled : {E : Type 0} → BatchController E → Type 0
AllFiled c = All (λ x. is_filed x ≡ true) c.manifests

-- The run came to its end, returning or raising.
pub data Ran {E W A : Type 0} : Outcome E W A → Type 0 where
  ran : {r : Result ServiceError A} {s : Running E W} → AllFiled s.service → Ran (some (r, s))

module _ {E W : Type 0} where
  abbrev pub Runs : {A : Type 0} → Proc E W A → Type 0
  Runs part = (s : Running E W) → AllFiled s.service → Ran (part s)

  after-Ran :
      {A B : Type 0} {o : Outcome E W A} {next : A → Proc E W B}
      → Ran o
      → ((a : A) → Runs (next a))
      → Ran (after o next)
  after-Ran (ran {r = ok a} {s = s} h) rest = rest a s h
  after-Ran (ran {r = err e} h) rest = ran h

  pub then-Runs :
      {A B : Type 0} {part : Proc E W A} {next : A → Proc E W B}
      → Runs part
      → ((a : A) → Runs (next a))
      → Runs (part >>= next)
  then-Runs first rest s h = after-Ran (first s h) rest

  pub if-Runs :
      {A : Type 0} {left right : Proc E W A} (c : Bool)
      → Runs left
      → Runs right
      → Runs (if c then left else right)
  if-Runs true l r = l
  if-Runs false l r = r

  pub skip-Runs : Runs skip
  skip-Runs s h = ran h

  pub return-Runs : {A : Type 0} (a : A) → Runs (return a)
  return-Runs a s h = ran h

  pub raise-Runs : {A : Type 0} (e : ServiceError) → Runs (raise {A = A} e)
  raise-Runs e s h = ran h

  pub require-Runs : (c : Bool) (e : CommandError) → Runs (require c e)
  require-Runs true e s h = ran h
  require-Runs false e s h = ran h

  pub reading-require-Runs :
      (test : Running E W → Bool) (e : CommandError) → Runs (reading (λ s. require (test s) e))
  reading-require-Runs test e s h = require-Runs (test s) e s h

  finish_call-Ran :
      {A : Type 0} (s : Running E W) (r : Result Text A × W)
      → AllFiled s.service
      → Ran (finish_call s r)
  finish_call-Ran s (ok a, w) h = ran h
  finish_call-Ran s (err text, w) h = ran h

  pub call-Runs : {A : Type 0} (f : W → Result Text A × W) → Runs (call f)
  unfolding call
  call-Runs f s h = finish_call-Ran s (f s.world) h

  pub ask-Runs : {A : Type 0} (f : W → A × W) → Runs (ask f)
  unfolding ask
  ask-Runs f s h = ran h

  finish_store-Ran :
      {A : Type 0} (s : Running E W) (r : Result StorageError (A × W))
      → AllFiled s.service
      → Ran (finish_store s r)
  finish_store-Ran s (ok (a, w)) h = ran h
  finish_store-Ran s (err e) h = ran h

  pub store-Runs : {A : Type 0} (f : W → Result StorageError (A × W)) → Runs (store f)
  unfolding store
  store-Runs f s h = finish_store-Ran s (f s.world) h

  pub checked-Runs : {A : Type 0} (r : Result StorageError A) → Runs (checked r)
  checked-Runs (ok a) s h = ran h
  checked-Runs (err e) s h = ran h

  pub set_service-Runs :
      (f : BatchController E → BatchController E)
      → ((c : BatchController E) → AllFiled c → AllFiled (f c))
      → Runs (set_service f)
  set_service-Runs f kept s h = ran (kept s.service h)

  pub set_phase-Runs : (phase : ServicePhase) (message : Notice) → Runs (set_phase phase message)
  set_phase-Runs phase message s h = ran h

  pub remember-Runs : (m : BatchManifest) → Runs (remember m)
  remember-Runs m s h = ran (put_key-filed m s.service.manifests h)

  pub set_coordinator-Runs : (c : Option BatchCoordinator) → Runs (set_coordinator c)
  set_coordinator-Runs c s h = ran h

  pub set_lease-Runs : (owned : Bool) → Runs (set_lease owned)
  set_lease-Runs owned s h = ran h

  pub set_attempts-Runs : (attempts : List ExposureAttempt) → Runs (set_attempts attempts)
  set_attempts-Runs attempts s h = ran h

  pub close_active-Runs :
      (status : ManifestStatus) (message : Notice) (m : BatchManifest)
      → Runs (close_active status message m)
  close_active-Runs status message m s h = ran h

  pub set_active-Runs : (m : BatchManifest) → Runs (set_active m)
  set_active-Runs m s h = ran h

  pub on_coordinator-Runs :
      {A : Type 0} (f : BatchCoordinator → Proc E W A) (c : Option BatchCoordinator)
      → ((d : BatchCoordinator) → Runs (f d))
      → Runs (on_coordinator f c)
  on_coordinator-Runs f none runs = raise-Runs no_coordinator
  on_coordinator-Runs f (some c) runs = runs c

  pub finish_assessment-Ran :
      (s : Running E W) (r : Option (Planned BatchAssessment × BatchCoordinator × W))
      → is_some r ≡ true
      → AllFiled s.service
      → Ran (finish_assessment s r)
  finish_assessment-Ran s none ends h = cc
  finish_assessment-Ran s (some (ok a, c, w)) ends h = ran h
  finish_assessment-Ran s (some (err e, c, w)) ends h = ran h

  pub finish_starting-Ran :
      (s : Running E W) (r : Option (Planned StartResult × BatchCoordinator × W))
      → is_some r ≡ true
      → AllFiled s.service
      → Ran (finish_starting s r)
  finish_starting-Ran s none ends h = cc
  finish_starting-Ran s (some (ok a, c, w)) ends h = ran h
  finish_starting-Ran s (some (err e, c, w)) ends h = ran h
