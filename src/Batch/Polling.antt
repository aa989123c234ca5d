-- ===== src/Batch/Polling.antt =====
-- The coordinator's theorems at concrete sources, and what class BatchCoordinator of
-- src/chamber_ctl/subsystems/batcher.py does with them.
use chamber_ctl.Batch.Coordinator.Tries.{poll_times}
use chamber_ctl.Batch.Order.Fixed.{swap, Rearranged, assess_batch-Rearranged}
use chamber_ctl.Batch.Order.{sort_from, insert_attempt, latest_of, latest_from, put_latest}
use chamber_ctl.Batch.Assess.{
  assess_batch, assess_terminal, assess_next, assess_active, assess_finalizing, assess_status,
  assess_repair, assess_metrics, assess_aborted, assess_short, start_sample, first_error, or_else,
}
use chamber_ctl.Batch.Attempt.{
  ExposureAttempt, progress_for, progress_of, attempt_error, metrics_need_repair, has_status,
}
use chamber_ctl.Batch.Coordinator.Latched.{
  serve_all, Request, pauses, polls, error_holds, plans, serve,
}
use chamber_ctl.Batch.Decision.{
  BatchAssessment, BatchDecisionKind, decide_only, Message, paused, manually_paused,
}
use chamber_ctl.Batch.Coordinator.Fuel.{HasRuns, poll_once_ends, IsKnown}
use chamber_ctl.Batch.Plan.{Planned, no_such_entry}
use chamber_ctl.Batch.Settings.{ExposureSettings, settings_for}
use chamber_ctl.Batch.Coordinator.Poll.{
  start_next, poll_once, StartResult, refresh, start_raised, repair_rounds, cannot_start,
  repair_run, finish_poll,
}
use chamber_ctl.Batch.Coordinator.{
  make_coordinator, BatchCoordinator, is_pause_error, Sources, latch, latch_logic, latch_source,
  count_failure, pause, update_plan, put_count, pop_count,
}
use chamber_ctl.Prelude.{
  refl, [], ◌∷◌, none, some, true, false, zero, suc, ok, err, List, is_some, ◌≡◌, codes, ℕ, arith,
  Result, zero_float, Option, subst, Text, fin, All, pos, strip, upper, ◌-ℤ◌, ◌+ℤ◌, if◌then◌else◌,
  ◌==◌, ◌+◌,
}
use chamber_ctl.Batch.Tests.{plan, run_on, stopped_controller, config, short, inputs}

-- A history that always holds the same runs and cannot repair them; the first load fails if it is
-- number 0. The world counts the calls.
abbrev load_from : List ExposureAttempt → ℕ → Result Text (List ExposureAttempt) × ℕ
load_from runs zero = (err (codes "offline"), 1)
load_from runs (suc calls) = (ok runs, suc (suc calls))

abbrev bench : List ExposureAttempt → Sources ℕ
bench runs = record {
  load_attempts = load_from runs;
  repair_metrics = λ run calls. (err (codes "no snapshots"), suc calls);
  snapshot = λ calls. (ok stopped_controller, suc calls);
  start_exposure = λ settings tags calls. (ok (codes "accepted"), suc calls);
  wall_clock = λ calls. (fin (pos 2000), suc calls);
}

abbrev coordinator : BatchCoordinator
unfolding make_coordinator
coordinator =
    make_coordinator plan
      (record { assessment = config; repair_attempt_limit = 2; source_failure_limit = 1 }) (21 ∷ [])
      false

unfoldable pub polling : Unit {0}
unfolding start_next poll_once refresh repair_rounds repair_run finish_poll latch latch_logic
    latch_source count_failure pause update_plan serve serve_all put_count pop_count
    make_coordinator assess_batch assess_terminal assess_next assess_active assess_finalizing
    assess_status assess_repair assess_metrics assess_aborted assess_short start_sample first_error
    or_else sort_from insert_attempt latest_of latest_from put_latest progress_for progress_of
    attempt_error metrics_need_repair has_status settings_for strip upper ◌-ℤ◌ ◌+ℤ◌
polling = tt

abbrev pub remaining : ExposureSettings
remaining = record {
  name = codes "contrast";
  description = [];
  target_time = zero_float;
  target_dose = fin (pos 200);
  operator = codes "ab";
  zr_filter = codes "200nm";
  sample = 4;
  sample_type = codes "resist";
  base_pressure = fin (pos 3);
  operating_pressure = fin (pos 4);
  flow_sccm = fin (pos 5);
  calibration_profile_id = [];
  calibration_revision = pos 0;
  chopper_frequency_hz = some (fin (pos 192));
}

abbrev left_of {ℓ} :
    {A : Type ℓ}
    → A × BatchCoordinator × ℕ
    → Option (A × BatchCoordinator × ℕ)
    → A × BatchCoordinator × ℕ
left_of d none = d
left_of d (some r) = r

abbrev nothing : Planned StartResult × BatchCoordinator × ℕ
nothing = (ok (start_raised []), coordinator, 0)

abbrev after_start : Planned StartResult × BatchCoordinator × ℕ
unfolding polling
after_start = left_of nothing (start_next (bench short) 1 [] coordinator 1)

-- A run with snapshots and no metrics, whose repair fails.
abbrev broken : List ExposureAttempt
broken = run_on 21 4 0 0 ∷ []

broken-HasRuns : HasRuns (bench broken) (21 ∷ [])
broken-HasRuns zero attempts e = cc
broken-HasRuns (suc calls) attempts e =
    let same : broken ≡ attempts = ground arith in
    subst (All (IsKnown (bench broken) (21 ∷ []))) same (refl, tt)

poll_once_ends_example : is_some (poll_once (bench broken) 2 coordinator 1) ≡ true
poll_once_ends_example = poll_once_ends (bench broken) (21 ∷ []) coordinator 1 broken-HasRuns

abbrev no_poll : Planned BatchAssessment × BatchCoordinator × ℕ
no_poll = (err no_such_entry, coordinator, 0)

abbrev after_repair : Planned BatchAssessment × BatchCoordinator × ℕ
unfolding polling
after_repair = left_of no_poll (poll_once (bench broken) 2 coordinator 1)

polls_broken :
    poll_once (bench broken) 2 coordinator 1 ≡ some (after_repair.0, after_repair.1, after_repair.2)
unfolding polling
polls_broken = refl

-- One try so far.
tried_once : after_repair.1.repair_attempts ≡ (21, 1) ∷ []
unfolding polling
tried_once = refl

-- The history stays broken, and the world is the number of repairs of run 21.
abbrev counting : Sources ℕ
counting = record {
  load_attempts = λ tries. (ok broken, tries);
  repair_metrics = λ run tries. (err (codes "no snapshots"), tries + (if run == 21 then 1 else 0));
  snapshot = λ tries. (ok stopped_controller, tries);
  start_exposure = λ settings tags tries. (ok (codes "accepted"), tries);
  wall_clock = λ tries. (fin (pos 2000), tries);
}

abbrev after_polls : BatchCoordinator × ℕ
unfolding polling poll_times
after_polls = elim (poll_times counting 21 3 2 coordinator 0) [
  | none ↦ (coordinator, 0)
  | some r ↦ r
]

-- The first load fails, which the limit of 1 makes an error; the next would allow a start.
abbrev offline : Planned BatchAssessment × BatchCoordinator × ℕ
unfolding polling
offline = left_of no_poll (poll_once (bench short) 1 coordinator 0)

abbrev offline_answer : BatchAssessment
unfolding polling
offline_answer = elim offline.0 [ ok a ↦ a | err e ↦ decide_only [] paused manually_paused ]

goes_offline :
    poll_once (bench short) 1 coordinator 0 ≡ some (ok offline_answer, offline.1, offline.2)
unfolding polling
goes_offline = refl

abbrev requests : List Request
requests = pauses ∷ polls 1 ∷ plans plan ∷ []

abbrev served : BatchCoordinator × ℕ
unfolding polling
served = elim (serve_all (bench short) requests offline.1 offline.2) [
  | some r ↦ r
  | none ↦ (coordinator, 0)
]

serves : serve_all (bench short) requests offline.1 offline.2 ≡ some (served.0, served.1)
unfolding polling
serves = refl

abbrev refused : Planned StartResult × BatchCoordinator × ℕ
unfolding polling
refused = left_of nothing (start_next (bench short) 1 [] served.0 served.1)

abbrev refusal : StartResult
unfolding polling
refusal = elim refused.0 [ ok r ↦ r | err e ↦ start_raised [] ]

refuses : start_next (bench short) 1 [] served.0 served.1 ≡ some (ok refusal, refused.1, refused.2)
unfolding polling
refuses = refl

error_is_offline : is_pause_error offline_answer.decision.kind ≡ true
unfolding polling
error_is_offline = refl

error_holds_example :
    (kind : BatchDecisionKind) × (message : Message) × (refusal ≡ cannot_start kind message)
error_holds_example =
    error_holds (bench short) 1 coordinator 0 requests 1 [] goes_offline error_is_offline serves
      refuses

swapped_runs : Rearranged short (run_on 21 4 300 40 ∷ run_on 22 7 10 61 ∷ [])
swapped_runs = swap

assess_batch-Rearranged_example :
    assess_batch plan short stopped_controller inputs
    ≡ assess_batch plan (run_on 21 4 300 40 ∷ run_on 22 7 10 61 ∷ []) stopped_controller inputs
assess_batch-Rearranged_example =
    assess_batch-Rearranged plan stopped_controller inputs swapped_runs (refl, (refl, tt))
      ((refl, tt), (tt, tt))
