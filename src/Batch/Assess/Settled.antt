-- ===== src/Batch/Assess/Settled.antt =====
-- When the planner goes on: the decisions to start, to complete and to stay paused, of `assess_batch`,
-- src/chamber_ctl/subsystems/batcher.py.
use chamber_ctl.Batch.Order.{All-sort_from}
use chamber_ctl.Batch.Plan.{BatchPlan, Planned}
use chamber_ctl.Batch.Assess.Stages.{
  is_final, or_else-final, or_else-past, assess_finalizing-Stops, assess_status-Stops,
  assess_repair-waits, assess_metrics-Stops, assess_aborted-Stops, assess_short-Stops,
  assess_finalizing-none, assess_status-none, assess_repair-none, error_decision-Stops,
  assess_metrics-none, assess_active-Stops, assess_active-none, first_error-none,
}
use chamber_ctl.Prelude.{
  refl, ◌≡◌, All, select-nil, All-map, Option, Bool-cases, arith, is_finite, inl, select,
  select-All, [], ◌∷◌, inr, ok,
}
use chamber_ctl.Batch.Attempt.{ExposureAttempt}
use chamber_ctl.Batch.Decision.{ControllerSnapshot}
use chamber_ctl.Batch.Assess.{
  assess_batch, Inputs, attempt_error, List, assess_terminal, samples, BatchAssessment,
  progress_for, none, assess_next, true, is_terminal, find_first, is_finalizing, is_under, false,
  has_known_status, metrics_need_repair, metrics_complaint, is_active, SampleProgress,
  sort_attempts, ◌∷◌, AttemptError, error_decision, some,
}

-- A run with nothing left to wait for or to report.
pub record IsSettled (plan : BatchPlan) (i : Inputs) (a : ExposureAttempt) : Type 0 where
  pub valid : attempt_error a (samples plan.entries) ≡ none
  pub ended : is_terminal a ≡ true
  pub finalized : is_finalizing i.now i.config.finalization_delay a ≡ false
  pub known : has_known_status a ≡ true
  pub measured : metrics_need_repair a ≡ false
  pub in_bounds : metrics_complaint i.config a.dose a.runtime ≡ none

module _ (plan : BatchPlan) (controller : ControllerSnapshot) (i : Inputs) where
  -- What the last stage is given.
  abbrev pub next_of : List ExposureAttempt → Planned BatchAssessment
  next_of terminal =
      let progress = progress_for plan terminal i.config in
      assess_next plan controller i.paused_by_hand progress (find_first is_under progress)

  assess_terminal-final :
      (terminal : List ExposureAttempt) {a : BatchAssessment}
      → assess_terminal plan controller i terminal ≡ ok a
      → is_final a.decision.kind ≡ true
      → All (λ t. is_finalizing i.now i.config.finalization_delay t ≡ false) terminal
        × All (λ t. has_known_status t ≡ true) terminal
        × All (λ t. metrics_need_repair t ≡ false) terminal
        × All (λ t. metrics_complaint i.config t.dose t.runtime ≡ none) terminal
        × (next_of terminal ≡ ok a)
  unfolding assess_terminal
  assess_terminal-final terminal e f =
      let (e1, r1) = or_else-final _ _ (assess_finalizing-Stops _ _) e f in
      let (e2, r2) = or_else-final _ _ (assess_status-Stops _ terminal) r1 f in
      let (e3, r3) = or_else-past is_final _ _ (assess_repair-waits _ _ terminal) r2 f in
      let (e4, r4) = or_else-final _ _ (assess_metrics-Stops _ _ terminal) r3 f in
      let (_, r5) = or_else-final _ _ (assess_aborted-Stops _ _) r4 f in
      let (_, r6) = or_else-final _ _ (assess_short-Stops _ _ _ _) r5 f in
      (
        select-nil _ terminal (assess_finalizing-none _ _ e1),
        assess_status-none _ terminal e2,
        assess_repair-none _ _ terminal e3,
        assess_metrics-none _ _ terminal e4,
        r6,
      )

  settle :
      (l : List ExposureAttempt)
      → All (λ a. attempt_error a (samples plan.entries) ≡ none) l
      → All (λ a. is_active a ≡ false) l
      → All (λ t. is_finalizing i.now i.config.finalization_delay t ≡ false) l
      → All (λ t. has_known_status t ≡ true) l
      → All (λ t. metrics_need_repair t ≡ false) l
      → All (λ t. metrics_complaint i.config t.dose t.runtime ≡ none) l
      → All (IsSettled plan i) l
  settle [] v e f k m b = tt
  settle (a ∷ l) v e f k m b = (
    record {
      valid = v.0;
      ended = ground (arith, e.0);
      finalized = f.0;
      known = k.0;
      measured = m.0;
      in_bounds = b.0;
    },
    settle l v.1 e.1 f.1 k.1 m.1 b.1,
  )

  terminal_of_active :
      (l : List ExposureAttempt)
      → All (λ a. is_active a ≡ false) l
      → All (λ a. is_terminal a ≡ true) l
  terminal_of_active l h = All-map l (λ a e. ground (arith, e)) h

  error_decision-none :
      (progress : List SampleProgress) (o : Option (ExposureAttempt × AttemptError))
      → error_decision progress o ≡ none
      → o ≡ none
  error_decision-none progress none e = refl
  error_decision-none progress (some (a, x)) e = cc

  -- The assessment ends with one of the kinds paused, start_remainder and complete only if every run
  -- of the batch is settled; what it says then is decided by the progress of all runs.
  pub assess_batch-final :
      (attempts : List ExposureAttempt) {a : BatchAssessment}
      → assess_batch plan attempts controller i ≡ ok a
      → is_final a.decision.kind ≡ true
      → All (IsSettled plan i) attempts × (next_of (sort_attempts attempts) ≡ ok a)
  unfolding assess_batch
  assess_batch-final attempts e f = elim (Bool-cases (is_finite i.now)) [
    | inl now_ok ↦
        let ordered = sort_attempts attempts in
        let r0 = rw now_ok at e in
        let (e1, r1) = or_else-final _ _ (error_decision-Stops _ _) r0 f in
        let (e2, r2) =
          or_else-final _ _ (assess_active-Stops _ _ (select is_active ordered)) r1 f in
        let inactive = select-nil is_active ordered (assess_active-none _ _ _ e2) in
        let everything = select-All is_terminal ordered (terminal_of_active ordered inactive) in
        let (fin, known, measured, bounds, last) =
          assess_terminal-final ordered (rw everything at r2) f in
        let valid = first_error-none _ ordered (error_decision-none _ _ e1) in
        (
          (All-sort_from (IsSettled plan i) [] attempts
              (settle ordered valid inactive fin known measured bounds)).1,
          last,
        )
    | inr now_bad ↦ let refused = rw now_bad at e in cc
  ]
