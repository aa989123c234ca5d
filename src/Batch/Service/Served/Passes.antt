-- ===== src/Batch/Service/Served/Passes.antt =====
-- That every pass of the loop of class BatchControllerSubsystem,
-- src/chamber_ctl/subsystems/batch_controller.py, comes to its end.
use chamber_ctl.Batch.Service.Served.Commands.{execute-Runs}
use chamber_ctl.Batch.Service.{Option, Bool, List, ServiceError}
use chamber_ctl.Batch.Manifest.{BatchManifest}
use chamber_ctl.Batch.Service.Loop.{
  handle_command, handle_next, poll_if, poll_due, poll_next, pass, passes, Pass, settle,
}
use chamber_ctl.Batch.Service.Commands.{Command}
use chamber_ctl.Batch.Service.Served.{
  ran, Runs, Plant, skip-Runs, then-Runs, Running, Outcome, AllFiled, Ran,
}
use chamber_ctl.Batch.Service.Served.Polls.{HasFuel, poll_active-Runs, ensure_runtime-Runs}
use chamber_ctl.Prelude.{some, none, true, false, ok, err, [], ◌∷◌, ◌≡◌, refl, subst}

module _ {E W : Type 0} {plant : Plant E W} (fueled : HasFuel plant) where
  -- What a pass leaves.
  abbrev pub IsLeft : Option (Running E W) → Type 0
  IsLeft o = (t : Running E W) × (o ≡ some t) × AllFiled t.service

  settle-IsLeft :
      {A : Type 0} {o : Outcome E W A} (on_error : ServiceError → Running E W → Running E W)
      (on_success : A → Running E W → Running E W)
      → Ran o
      → ((e : ServiceError) (t : Running E W)
          → AllFiled t.service
          → AllFiled (on_error e t).service)
      → ((a : A) (t : Running E W) → AllFiled t.service → AllFiled (on_success a t).service)
      → IsLeft (settle on_error on_success o)
  settle-IsLeft on_error on_success (ran {r = ok a} {s = s} h) bad good =
      (on_success a s, refl, good a s h)
  settle-IsLeft on_error on_success (ran {r = err e} {s = s} h) bad good =
      (on_error e s, refl, bad e s h)

  handle_next-IsLeft :
      (o : Option Command) (s : Running E W) → AllFiled s.service → IsLeft (handle_next plant o s)
  unfolding handle_next handle_command
  handle_next-IsLeft none s h = (s, refl, h)
  handle_next-IsLeft (some command) s h =
      settle-IsLeft _ _ (execute-Runs fueled command s h) (λ e t held. held) (λ a t held. held)

  poll_if-Runs : (due : Bool) → Runs (poll_if plant due)
  unfolding poll_if
  poll_if-Runs true = poll_active-Runs fueled true
  poll_if-Runs false = skip-Runs

  poll_due-IsLeft :
      (due : Bool) (a : Option BatchManifest) (s : Running E W)
      → AllFiled s.service
      → IsLeft (poll_due plant due a s)
  unfolding poll_due
  poll_due-IsLeft due none s h = (s, refl, h)
  poll_due-IsLeft due (some m) s h =
      settle-IsLeft _ _ (then-Runs (ensure_runtime-Runs fueled) (λ done. poll_if-Runs due) s h)
        (λ e t held. held) (λ a t held. held)

  poll_next-IsLeft :
      (due : Bool) (o : Option (Running E W)) → IsLeft o → IsLeft (poll_next plant due o)
  unfolding poll_next
  poll_next-IsLeft due none (t, e, h) = cc
  poll_next-IsLeft due (some s) (t, e, h) =
      let same : t ≡ s = cc e in
      poll_due-IsLeft due s.service.active_manifest s (subst (λ x. AllFiled x.service) same h)

  pass-IsLeft : (p : Pass) (s : Running E W) → AllFiled s.service → IsLeft (pass plant p s)
  unfolding pass
  pass-IsLeft p s h =
      poll_next-IsLeft p.due (handle_next plant p.command s) (handle_next-IsLeft p.command s h)

  -- With one round of fuel more than there are runs in the history, any passes of the loop come to
  -- their end, whatever the commands and the failures, and leave each known manifest under its own
  -- identifier if that was so before.
  pub passes_end :
      (ps : List Pass) (s : Running E W) → AllFiled s.service → IsLeft (passes plant ps s)
  unfolding passes
  passes_end [] s h = (s, refl, h)
  passes_end (p ∷ ps) s h =
      let (t, e, held) = pass-IsLeft p s h in rw (e, passes) (passes_end ps t held)
