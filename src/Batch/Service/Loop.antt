-- ===== src/Batch/Service/Loop.antt =====
-- The loop of the batch service: `_handle_command` and `_worker` of class BatchControllerSubsystem,
-- src/chamber_ctl/subsystems/batch_controller.py, after its start. What it publishes is left out, and
-- the controller is there.
use chamber_ctl.Batch.Service.Commands.{Command}
use chamber_ctl.Batch.Service.Execute.{execute}
use chamber_ctl.Batch.Service.Steps.{Plant}
use chamber_ctl.Batch.Service.Poll.{poll_active, ensure_runtime}
use chamber_ctl.Batch.Service.{ServiceError, error, BatchManifest, failed, BatchController}
use chamber_ctl.Prelude.{[], ◌∷◌, some, none, true, false, ok, err, Option, Bool, List}
use chamber_ctl.Batch.Service.Proc.{◌>>◌, skip, Running, Outcome, Proc}

-- `except Exception as exc` of `_worker`, and of `_handle_command` with its `else`.
abbrev pub worker_failed : {E W : Type 0} → ServiceError → Running E W → Running E W
worker_failed e s = record s {
  service = record s.service { last_error = some e; phase = error; message = failed e };
}

abbrev pub settle :
    {E W A : Type 0}
    → (ServiceError → Running E W → Running E W)
    → (A → Running E W → Running E W)
    → Outcome E W A
    → Option (Running E W)
settle on_error on_success none = none
settle on_error on_success (some (err e, s)) = some (on_error e s)
settle on_error on_success (some (ok a, s)) = some (on_success a s)

abbrev pub set_last_error : {E W : Type 0} → Option ServiceError → Running E W → Running E W
set_last_error e s = record s { service = record s.service { last_error = e } }

-- What a pass of the loop meets: a command in the queue, and whether the next poll is due.
pub record Pass : Type 0 where
  pub command : Option Command
  pub due : Bool

-- The service before its first pass.
abbrev pub before_passes : {E W : Type 0} → BatchController E → W → Running E W
before_passes c w = record {
  service = c;
  coordinator = none;
  assessment = none;
  attempts = [];
  world = w;
}

module _ {E W : Type 0} (plant : Plant E W) where
  -- `_handle_command`
  unfoldable pub handle_command : Command → Running E W → Option (Running E W)
  handle_command command s =
      settle (λ e. set_last_error (some e)) (λ reply. set_last_error none) (execute plant command s)

  unfoldable pub handle_next : Option Command → Running E W → Option (Running E W)
  handle_next none s = some s
  handle_next (some command) s = handle_command command s

  unfoldable pub poll_if : (due : Bool) → Proc E W (Unit {0})
  poll_if true = poll_active plant true
  poll_if false = skip

  unfoldable pub poll_due : (due : Bool) → Option BatchManifest → Running E W → Option (Running E W)
  poll_due due none s = some s
  poll_due due (some m) s =
      settle worker_failed (λ done s. s) ((do ensure_runtime plant; poll_if due) s)

  unfoldable pub poll_next : (due : Bool) → Option (Running E W) → Option (Running E W)
  poll_next due none = none
  poll_next due (some s) = poll_due due s.service.active_manifest s

  -- A pass of the loop of `_worker`.
  unfoldable pub pass : Pass → Running E W → Option (Running E W)
  pass p s = poll_next p.due (handle_next p.command s)

  unfoldable pub passes : List Pass → Running E W → Option (Running E W)
  passes [] s = some s
  passes (p ∷ ps) s = elim (pass p s) [ none ↦ none | some s' ↦ passes ps s' ]
