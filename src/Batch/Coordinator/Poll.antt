-- ===== src/Batch/Coordinator/Poll.antt =====
-- `poll_once` and `start_next` of class BatchCoordinator, src/chamber_ctl/subsystems/batcher.py,
-- over any sources.
use chamber_ctl.Batch.Coordinator.{
  BatchCoordinator, is_start, Sources, unavailable_text, put_count, assess_now, latch,
  count_failure, count_of, any_pause, pop_count, wanted_repair, is_repaired,
}
use chamber_ctl.Prelude.{
  ℕ, Option, List, Text, Bool, true, Result, [], some, ◌∷◌, ◌+◌, false, if◌then◌else◌, any, codes,
  err, ◌++◌, leb, none, ok, text_eq, suc, zero,
}
use chamber_ctl.Batch.Plan.{Planned}
use chamber_ctl.Batch.Settings.{ExposureSettings}
use chamber_ctl.Batch.Attempt.{ExposureAttempt}
use chamber_ctl.Batch.Decision.{
  Message, BatchAssessment, BatchDecisionKind, BatchDecision, ControllerSnapshot,
}

-- What `start_next` returns: it cannot start, the start raised, or the exposure is started.
pub data StartResult : Type 0 where
  cannot_start : BatchDecisionKind → Message → StartResult
  start_raised : Text → StartResult
  started : ExposureSettings → StartResult

abbrev pub start_result : ExposureSettings → Result Text Text → StartResult
start_result settings (err fault) = start_raised fault
start_result settings (ok answer) = started settings

abbrev pub exposure_to_start : BatchDecision → Option ExposureSettings
exposure_to_start d = if is_start d.kind then d.settings else none

abbrev pub has_tag : Text → List Text → Bool
has_tag tag = any (text_eq tag)

abbrev pub tags_owned : Text
tags_owned = codes "ValueError: Source calibration run tags are owned by the batch plan."

module _ {W : Type 0} (sources : Sources W) where
  -- The two sources of a poll, inside its `try`.
  unfoldable pub refresh : W → Result Text (List ExposureAttempt × ControllerSnapshot) × W
  refresh w =
      let (loaded, w1) = sources.load_attempts w in
      elim loaded [
        | err fault ↦ (err fault, w1)
        | ok attempts ↦
            let (seen, w2) = sources.snapshot w1 in
            elim seen [
              | err fault ↦ (err fault, w2)
              | ok controller ↦ (
                if controller.available
                    then ok (attempts, controller)
                    else err (unavailable_text controller.error),
                w2,
              )
            ]
      ]

  -- One repair of a run, up to the end of its `except`: the runs as they then are, and the count of
  -- attempts, which a repair that shows takes away.
  unfoldable pub repair_run :
      ℕ → List ExposureAttempt → BatchCoordinator → W → BatchCoordinator × List ExposureAttempt × W
  repair_run run attempts c w =
      let counted = record c {
        repair_attempts = put_count run (count_of run c.repair_attempts + 1) c.repair_attempts;
      } in
      let (repair, w1) = sources.repair_metrics run w in
      elim repair [
        | err fault ↦ (counted, attempts, w1)
        | ok metrics ↦
            let (loaded, w2) = sources.load_attempts w1 in
            elim loaded [
              | err fault ↦ (counted, attempts, w2)
              | ok again ↦
                  let popped = pop_count run counted.repair_attempts in
                  (
                    if is_repaired run again
                        then record counted { repair_attempts = popped }
                        else counted,
                    again,
                    w2,
                  )
            ]
      ]

  -- The loop of a poll, `none` out of fuel. An error of the planner leaves the method.
  unfoldable pub repair_rounds :
      ℕ
      → ControllerSnapshot
      → List ℕ
      → List ExposureAttempt
      → BatchCoordinator
      → W
      → Option (Planned BatchAssessment × BatchCoordinator × W)
  repair_rounds zero controller repaired attempts c w = none
  repair_rounds (suc fuel) controller repaired attempts c w =
      let (now, w1) = sources.wall_clock w in
      elim (assess_now c attempts controller now (any_pause c)) [
        | err e ↦ some (err e, c, w1)
        | ok a ↦ elim (wanted_repair a.decision repaired) [
          | none ↦ some (ok a, c, w1)
          | some run ↦
              let (c', attempts', w') = repair_run run attempts c w1 in
              elim (leb c.config.repair_attempt_limit (count_of run c'.repair_attempts)) [
                | true ↦
                    let blocked = record c' {
                      blocked_repair_runs = run ∷ c'.blocked_repair_runs;
                    } in
                    let (later, w'') = sources.wall_clock w' in
                    some (assess_now blocked attempts' controller later true, blocked, w'')
                | false ↦ repair_rounds fuel controller (run ∷ repaired) attempts' c' w'
              ]
        ]
      ]

  unfoldable pub finish_poll :
      Planned BatchAssessment × BatchCoordinator × W
      → Planned BatchAssessment × BatchCoordinator × W
  finish_poll (err e, c, w) = (err e, c, w)
  finish_poll (ok a, c, w) = let (c', a') = latch a c in (ok a', c', w)

  unfoldable pub poll_once :
      ℕ → BatchCoordinator → W → Option (Planned BatchAssessment × BatchCoordinator × W)
  poll_once fuel c w =
      let (refreshed, w1) = refresh w in
      elim refreshed [
        | err fault ↦ let (c', a) = count_failure fault c in some (ok a, c', w1)
        | ok (attempts, controller) ↦
            let fresh = record c { source_failures = 0 } in
            elim (repair_rounds fuel controller [] attempts fresh w1) [
              | none ↦ none
              | some result ↦ some (finish_poll result)
            ]
      ]

  -- `start_next`; an error of the planner leaves the method. The run tags are their names.
  unfoldable pub start_next :
      ℕ → List Text → BatchCoordinator → W → Option (Planned StartResult × BatchCoordinator × W)
  start_next fuel run_tags c w = elim (poll_once fuel c w) [
    | none ↦ none
    | some (err e, c', w') ↦ some (err e, c', w')
    | some (ok a, c', w') ↦ elim (exposure_to_start a.decision) [
      | none ↦ some (ok (cannot_start a.decision.kind a.decision.message), c', w')
      | some settings ↦
          if any (λ tag. has_tag tag c'.plan.template.source_tags) run_tags
          then some (ok (start_raised tags_owned), c', w')
          else let (answer, w'') =
              sources.start_exposure settings (run_tags ++ c'.plan.template.source_tags) w' in
            some (ok (start_result settings answer), c', w'')
    ]
  ]
