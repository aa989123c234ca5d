-- ===== src/Batch/Service/Proc.antt =====
-- What the functions of class BatchControllerSubsystem, src/chamber_ctl/subsystems/batch_controller.py,
-- work on: a state, with exceptions that keep what was changed before them. None is out of fuel of a
-- poll of the coordinator.
use chamber_ctl.Batch.Service.{
  BatchController, ServiceError, storage_failed, bus_failed, refused, CommandError,
}
use chamber_ctl.Batch.Attempt.{ExposureAttempt}
use chamber_ctl.Batch.Decision.{BatchAssessment}
use chamber_ctl.Batch.Coordinator.{BatchCoordinator}
use chamber_ctl.Batch.Manifest.{StorageError}
use chamber_ctl.Prelude.{Option, none, some, Result, ok, err, List, Text, Bool, if◌then◌else◌}

-- The service with its coordinator, its last assessment and runs, and the world.
pub record Running (E W : Type 0) : Type 0 where
  pub service : BatchController E
  pub coordinator : Option BatchCoordinator
  pub assessment : Option BatchAssessment
  pub attempts : List ExposureAttempt
  pub world : W

abbrev pub Outcome : Type 0 → Type 0 → Type 0 → Type 0
Outcome E W A = Option (Result ServiceError A × Running E W)

abbrev pub Proc : Type 0 → Type 0 → Type 0 → Type 0
Proc E W A = Running E W → Outcome E W A

abbrev pub after : {E W A B : Type 0} → Outcome E W A → (A → Proc E W B) → Outcome E W B
after none next = none
after (some (err e, s)) next = some (err e, s)
after (some (ok a, s)) next = next a s

infixl 5 ◌>>=◌ ◌>>◌
abbrev pub ◌>>=◌ : {E W A B : Type 0} → Proc E W A → (A → Proc E W B) → Proc E W B
◌>>=◌ part next s = after (part s) next

abbrev pub ◌>>◌ : {E W B : Type 0} → Proc E W (Unit {0}) → Proc E W B → Proc E W B
◌>>◌ part rest s = after (part s) (λ done. rest)

module _ {E W : Type 0} where
  abbrev pub return : {A : Type 0} → A → Proc E W A
  return a s = some (ok a, s)

  abbrev pub skip : Proc E W (Unit {0})
  skip s = some (ok tt, s)

  abbrev pub raise : {A : Type 0} → ServiceError → Proc E W A
  raise e s = some (err e, s)

  abbrev pub modify : (Running E W → Running E W) → Proc E W (Unit {0})
  modify f s = some (ok tt, f s)

  -- A function that reads the state.
  abbrev pub reading : {A : Type 0} → (Running E W → Proc E W A) → Proc E W A
  reading f s = f s s

  abbrev pub require : Bool → CommandError → Proc E W (Unit {0})
  require condition e = if condition then skip else raise (refused e)

  abbrev pub set_service : (BatchController E → BatchController E) → Proc E W (Unit {0})
  set_service f = modify (λ s. record s { service = f s.service })

  -- A call of a source: its exception is a text.
  abbrev pub finish_call : {A : Type 0} → Running E W → Result Text A × W → Outcome E W A
  finish_call s (ok a, w) = some (ok a, record s { world = w })
  finish_call s (err text, w) = some (err (bus_failed text), record s { world = w })

  unfoldable pub call : {A : Type 0} → (W → Result Text A × W) → Proc E W A
  call f s = finish_call s (f s.world)

  -- A call that raises nothing.
  unfoldable pub ask : {A : Type 0} → (W → A × W) → Proc E W A
  ask f s = let (a, w) = f s.world in some (ok a, record s { world = w })

  -- A call of the repository, which raises before it writes.
  abbrev pub finish_store : {A : Type 0} → Running E W → Result StorageError (A × W) → Outcome E W A
  finish_store s (ok (a, w)) = some (ok a, record s { world = w })
  finish_store s (err e) = some (err (storage_failed e), s)

  unfoldable pub store : {A : Type 0} → (W → Result StorageError (A × W)) → Proc E W A
  store f s = finish_store s (f s.world)

  -- A check that raises.
  abbrev pub checked : {A : Type 0} → Result StorageError A → Proc E W A
  checked (ok a) = return a
  checked (err e) = raise (storage_failed e)
