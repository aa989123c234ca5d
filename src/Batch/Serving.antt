-- ===== src/Batch/Serving.antt =====
-- The batch service at a concrete plant, for class BatchControllerSubsystem of
use chamber_ctl.Batch.Coordinator.Fuel.{IsKnown}
use chamber_ctl.Batch.Service.Halted.Pausing.{IsFiled, execute-IsHalted}
use chamber_ctl.Batch.Service.Halted.Stays.{passes-IsHalted}
use chamber_ctl.Batch.Service.Served.Passes.{IsLeft, passes_end}
use chamber_ctl.Batch.Service.Served.{AllFiled}
use chamber_ctl.Batch.Service.Served.Polls.{HasFuel}
use chamber_ctl.Batch.Service.Halted.Enters.{restart-Untouched}
use chamber_ctl.Batch.Tests.{short, config, stopped_controller}
use chamber_ctl.Batch.Service.Halted.{IsPlantUntouched, is_paused_batch, IsHalted}
use chamber_ctl.Batch.Service.Steps.{Plant}
use chamber_ctl.Batch.Storage.{Library}
use chamber_ctl.Batch.Archive.{starting_service, Archive, shelf, running_manifest, at_restart}
use chamber_ctl.Batch.Polling.{polling}
use chamber_ctl.Batch.Coordinator.{resume, Sources}
use chamber_ctl.Batch.Service.Commands.{
  sets_mode, continues, resumes, pauses, phase_reply, Reply, cancels,
}
use chamber_ctl.Batch.Service.Execute.{
  execute, execute_at, set_mode, continue_for, control, control_for, change_coordinator,
}
use chamber_ctl.Batch.Service.Loop.{
  pass, passes, poll_next, poll_due, poll_if, handle_next, handle_command, before_passes, Pass,
}
use chamber_ctl.Batch.Service.Proc.{call, ask, store, Running, Outcome}
use chamber_ctl.Batch.Service.Poll.{
  poll_active, poll_for, poll_with, conclude, conclude_kind, start_if, start_automatically,
  cancel_when_idle, finish_active, finish_for, give_lease, sync_control, sync_for, replace_active,
  keep_active, ensure_runtime, ensure_for, own_lease, save_control, start_exposure,
  poll_coordinator,
}
use chamber_ctl.Batch.Manifest.{automatic, BatchManifest, cancelled}
use chamber_ctl.Batch.Service.{
  load_manifests, BatchController, paused_at, make_service, idle, cancelled_after_run,
  no_coordinator,
}
use chamber_ctl.Prelude.{
  some, none, true, false, ok, err, [], ◌∷◌, ◌≡◌, refl, suc, fin, List, Option, ℕ, pos, codes,
  subst, All,
}

-- src/chamber_ctl/subsystems/batch_controller.py.

-- The database, and the number of exposures that were started.
abbrev Site : Type 0
Site = Archive × ℕ

abbrev on_archive : (Archive → Archive) → Site → Site
on_archive f (a, n) = (f a, n)

abbrev site_library : Library (Unit {0}) Site
site_library = record {
  find_batch = λ batch_uuid w. shelf.find_batch batch_uuid w.0;
  all_batches = λ w. shelf.all_batches w.0;
  create_entry = λ name desc w. (tt, w);
  set_tag = λ e key tag w. w;
  get_tag = λ e key w. none;
  set_name = λ e name w. w;
  set_desc = λ e desc w. w;
  write_resource = λ e f kind m w. on_archive (shelf.write_resource e f kind m) w;
  read_resource = λ e f kind w. shelf.read_resource e f kind w.0;
  list_resources = λ e w. shelf.list_resources e w.0;
}

-- The history always holds two runs, and the controller is idle.
abbrev site_sources : Sources Site
site_sources = record {
  load_attempts = λ w. (ok short, w);
  repair_metrics = λ run w. (err (codes "no snapshots"), w);
  snapshot = λ w. (ok stopped_controller, w);
  start_exposure = λ settings tags w. (ok (codes "accepted"), (w.0, suc w.1));
  wall_clock = λ w. (fin (pos 2000), w);
}

abbrev site : Plant (Unit {0}) Site
site = record {
  library = site_library;
  sources = site_sources;
  acquire_automation = λ w. (ok tt, w);
  release_automation = λ w. (ok tt, w);
  config = record { assessment = config; repair_attempt_limit = 2; source_failure_limit = 1 };
  poll_fuel = 3;
}

-- How many exposures were started.
abbrev HasStarted : ℕ → Site → Type 0
HasStarted n w = w.1 ≡ n

site-IsPlantUntouched : (n : ℕ) → IsPlantUntouched site (HasStarted n)
site-IsPlantUntouched n = record {
  library = record {
    enters = λ name desc w p. p;
    tags = λ e key tag w p. p;
    names = λ e name w p. p;
    describes = λ e desc w p. p;
    writes = λ e f kind m w p. p;
  };
  sources = record { loads = λ w p. p; repairs = λ run w p. p; shows = λ w p. p; reads = λ w p. p };
  acquires = λ w p. p;
  releases = λ w p. p;
}

serving : Unit {0}
unfolding polling starting_service poll_active poll_for poll_with conclude conclude_kind start_if
    start_automatically cancel_when_idle finish_active finish_for give_lease sync_control sync_for
    replace_active keep_active ensure_runtime ensure_for own_lease save_control start_exposure
    poll_coordinator call ask store pass passes poll_next poll_due poll_if handle_next
    handle_command execute execute_at set_mode continue_for control control_for change_coordinator
    resume
serving = tt

abbrev restarted : BatchController (Unit {0}) × Site
unfolding serving
restarted = elim (load_manifests site_library (fin (pos 20)) make_service (at_restart, 0)) [
  | ok r ↦ r
  | err e ↦ (make_service, ([], 0))
]

restarts : load_manifests site_library (fin (pos 20)) make_service (at_restart, 0) ≡ ok restarted
unfolding serving
restarts = refl

abbrev paused_manifest : BatchManifest
paused_manifest = paused_at (fin (pos 20)) running_manifest

restarts_paused : restarted.0.active_manifest ≡ some paused_manifest
unfolding serving
restarts_paused = refl

abbrev at_start : Running (Unit {0}) Site
unfolding serving
at_start = before_passes restarted.0 restarted.1

-- The automatic mode is chosen while the batch is paused; then the next poll is due.
abbrev waits : List Pass
waits =
    record { command = some (sets_mode automatic); due = true }
    ∷ record { command = some continues; due = true }
    ∷ record { command = none; due = true }
    ∷ []

abbrev left_by : Option (Running (Unit {0}) Site) → Running (Unit {0}) Site
unfolding serving
left_by none = at_start
left_by (some s) = s

abbrev waited : Running (Unit {0}) Site
unfolding serving
waited = left_by (passes site waits at_start)

runs_waits : passes site waits at_start ≡ some waited
unfolding serving
runs_waits = refl

-- Once it is resumed it starts an exposure.
abbrev going : Running (Unit {0}) Site
unfolding serving
going = left_by (passes site (record { command = some resumes; due = false } ∷ []) waited)

resumed_starts : going.world.1 ≡ 1
unfolding serving
resumed_starts = refl

restart-Untouched_example :
    HasStarted 0 waited.world × (is_paused_batch 9 waited.service.active_manifest ≡ true)
unfolding at_start waited
restart-Untouched_example =
    restart-Untouched site (site-IsPlantUntouched 0) (fin (pos 20)) (at_restart, 0) waits restarts
      restarts_paused refl (refl, (refl, (refl, tt))) runs_waits

at_start-IsHalted : IsHalted 9 (HasStarted 0) at_start
unfolding serving
at_start-IsHalted = record {
  coordinator_paused = refl;
  active_paused = refl;
  filed = (refl, tt);
  known_paused = refl;
  untouched = refl;
}

passes-IsHalted_example : IsHalted 9 (HasStarted 0) waited
passes-IsHalted_example =
    passes-IsHalted 9 (site-IsPlantUntouched 0) waits at_start (refl, (refl, (refl, tt)))
      at_start-IsHalted runs_waits

-- What a run of a command leaves, and the manifest that is active before it.
abbrev result_of :
    Outcome (Unit {0}) Site Reply
    → Reply × Running (Unit {0}) Site
    → Reply × Running (Unit {0}) Site
result_of (some (ok reply, s)) r = (reply, s)
result_of o r = r

abbrev active_of : Option BatchManifest → BatchManifest
active_of none = running_manifest
active_of (some m) = m

abbrev stopped : Reply × Running (Unit {0}) Site
unfolding serving
stopped = result_of (execute site pauses going) (phase_reply idle, going)

stops : execute site pauses going ≡ some (ok stopped.0, stopped.1)
unfolding serving
stops = refl

going_active : going.service.active_manifest ≡ some (active_of going.service.active_manifest)
unfolding serving
going_active = refl

going_uuid : (active_of going.service.active_manifest).batch_uuid ≡ 9
unfolding serving
going_uuid = refl

going-IsFiled : IsFiled 9 (site-IsPlantUntouched 1) going
unfolding serving
going-IsFiled = ((refl, tt), refl)

execute-IsHalted_example : IsHalted 9 (HasStarted 1) stopped.1
execute-IsHalted_example =
    execute-IsHalted 9 (site-IsPlantUntouched 1) pauses going refl going_active going_uuid
      going-IsFiled stops

site-HasFuel : HasFuel site
site-HasFuel = record {
  runs = 21 ∷ 22 ∷ [];
  history = λ w attempts e.
      let same : short ≡ attempts = cc e in
      subst (All (IsKnown site_sources (21 ∷ 22 ∷ []))) same (refl, (refl, tt));
  enough = refl;
}

going_AllFiled : AllFiled going.service
unfolding serving
going_AllFiled = (refl, tt)

passes_end_example : IsLeft site-HasFuel (passes site waits going)
passes_end_example = passes_end site-HasFuel waits going going_AllFiled

abbrev cancelled_now : Unit {0} × Running (Unit {0}) Site
unfolding serving
cancelled_now = elim (finish_active site cancelled cancelled_after_run going) [
  | some (ok done, s) ↦ (done, s)
  | _ ↦ (tt, going)
]

-- A restored batch cannot be paused or cancelled before the first pass has made its coordinator.
pause_fails : execute site pauses at_start ≡ some (err no_coordinator, at_start)
unfolding serving
pause_fails = refl

cancel_fails : execute site cancels at_start ≡ some (err no_coordinator, at_start)
unfolding serving
cancel_fails = refl
