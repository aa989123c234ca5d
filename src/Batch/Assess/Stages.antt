-- ===== src/Batch/Assess/Stages.antt =====
-- The stages of `assess_batch`, src/chamber_ctl/subsystems/batcher.py: a stage that returns never
-- lets the batch go on, and one that does not has found nothing wrong.
use chamber_ctl.Batch.Plan.{Planned}
use chamber_ctl.Batch.Attempt.{
  ExposureAttempt, AssessmentConfig, SampleProgress, attempt_error, metrics_need_repair,
}
use chamber_ctl.Batch.Decision.{
  BatchDecisionKind, paused, start_remainder, complete, BatchAssessment, ControllerSnapshot,
  wait_controller, wait_active, wait_finalization, pause_error, pause_failure,
}
use chamber_ctl.Batch.Assess.{
  assess_active, some, or_else, AttemptError, ◌∷◌, first_error, assess_finalizing, assess_status,
  assess_repair, assess_metrics, assess_aborted, assess_short, none, error_decision, [],
  has_known_status, metrics_complaint, find_first, has_sample,
}
use chamber_ctl.Prelude.{
  refl, ℕ, List, Option, Bool, true, false, ◌≡◌, arith, All, Option-cases, inl, inr, ok,
}

-- The kinds with which the assessment goes through all of its checks.
abbrev pub is_final : BatchDecisionKind → Bool
is_final paused = true
is_final start_remainder = true
is_final complete = true
is_final _ = false

abbrev pub Holds : (BatchAssessment → Type 0) → Option BatchAssessment → Type 0
Holds P none = Unit
Holds P (some a) = P a

-- The kinds that wait or report, which most stages return.
abbrev pub is_stop : BatchDecisionKind → Bool
is_stop wait_controller = true
is_stop wait_active = true
is_stop wait_finalization = true
is_stop pause_error = true
is_stop pause_failure = true
is_stop _ = false

abbrev pub Stops : Option BatchAssessment → Type 0
Stops = Holds (λ a. is_stop a.decision.kind ≡ true)

-- A stage returned something else than the answer, so it returned nothing.
pub or_else-past :
    (q : BatchDecisionKind → Bool) (o : Option BatchAssessment) (r : Planned BatchAssessment)
    {a : BatchAssessment}
    → Holds (λ b. q b.decision.kind ≡ false) o
    → or_else o r ≡ ok a
    → q a.decision.kind ≡ true
    → (o ≡ none) × (r ≡ ok a)
unfolding or_else
or_else-past q none r s e f = (refl, e)
or_else-past q (some b) r s e f = ground arith

pub stop-not_final : (k : BatchDecisionKind) → is_stop k ≡ true → is_final k ≡ false
stop-not_final k s = ground arith

-- A stage that only waits or reports is over when the answer is of a kind that does neither.
pub or_else-Stops :
    (q : BatchDecisionKind → Bool)
    → ((k : BatchDecisionKind) → is_stop k ≡ true → q k ≡ false)
    → (o : Option BatchAssessment) (r : Planned BatchAssessment) {a : BatchAssessment} → Stops o
    → or_else o r ≡ ok a
    → q a.decision.kind ≡ true
    → (o ≡ none) × (r ≡ ok a)
unfolding or_else
or_else-Stops q apart none r s e f = (refl, e)
or_else-Stops q apart (some b) r s e f = or_else-past q (some b) r (apart b.decision.kind s) e f

pub or_else-final :
    (o : Option BatchAssessment) (r : Planned BatchAssessment) {a : BatchAssessment}
    → Stops o
    → or_else o r ≡ ok a
    → is_final a.decision.kind ≡ true
    → (o ≡ none) × (r ≡ ok a)
or_else-final = or_else-Stops is_final stop-not_final

pub error_decision-Stops :
    (progress : List SampleProgress) (o : Option (ExposureAttempt × AttemptError))
    → Stops (error_decision progress o)
error_decision-Stops progress none = tt
error_decision-Stops progress (some (a, e)) = refl

pub assess_active-Stops :
    (progress : List SampleProgress) (c : ControllerSnapshot) (l : List ExposureAttempt)
    → Stops (assess_active progress c l)
unfolding assess_active
assess_active-Stops progress c [] = tt
assess_active-Stops progress c (a ∷ []) = ground arith
assess_active-Stops progress c (a ∷ b ∷ l) = refl

pub assess_active-none :
    (progress : List SampleProgress) (c : ControllerSnapshot) (l : List ExposureAttempt)
    → assess_active progress c l ≡ none
    → l ≡ []
unfolding assess_active
assess_active-none progress c [] e = refl
assess_active-none progress c (a ∷ []) e = cc
assess_active-none progress c (a ∷ b ∷ l) e = cc

pub first_error-none :
    (planned : List ℕ) (l : List ExposureAttempt)
    → first_error planned l ≡ none
    → All (λ a. attempt_error a planned ≡ none) l
unfolding first_error
first_error-none planned [] e = tt
first_error-none planned (a ∷ l) e = ground (arith, first_error-none planned l)

pub assess_finalizing-Stops :
    (progress : List SampleProgress) (l : List ExposureAttempt)
    → Stops (assess_finalizing progress l)
unfolding assess_finalizing
assess_finalizing-Stops progress [] = tt
assess_finalizing-Stops progress (a ∷ l) = refl

pub assess_finalizing-none :
    (progress : List SampleProgress) (l : List ExposureAttempt)
    → assess_finalizing progress l ≡ none
    → l ≡ []
unfolding assess_finalizing
assess_finalizing-none progress [] e = refl
assess_finalizing-none progress (a ∷ l) e = cc

pub assess_status-Stops :
    (progress : List SampleProgress) (l : List ExposureAttempt) → Stops (assess_status progress l)
unfolding assess_status
assess_status-Stops progress [] = tt
assess_status-Stops progress (a ∷ l) = ground (arith, assess_status-Stops progress l)

pub assess_status-none :
    (progress : List SampleProgress) (l : List ExposureAttempt)
    → assess_status progress l ≡ none
    → All (λ a. has_known_status a ≡ true) l
unfolding assess_status
assess_status-none progress [] e = tt
assess_status-none progress (a ∷ l) e = ground (arith, assess_status-none progress l)

pub assess_repair-waits :
    (progress : List SampleProgress) (blocked : List ℕ) (l : List ExposureAttempt)
    → Holds (λ a. is_final a.decision.kind ≡ false) (assess_repair progress blocked l)
unfolding assess_repair
assess_repair-waits progress blocked [] = tt
assess_repair-waits progress blocked (a ∷ l) =
    ground (arith, assess_repair-waits progress blocked l)

pub assess_repair-none :
    (progress : List SampleProgress) (blocked : List ℕ) (l : List ExposureAttempt)
    → assess_repair progress blocked l ≡ none
    → All (λ a. metrics_need_repair a ≡ false) l
unfolding assess_repair
assess_repair-none progress blocked [] e = tt
assess_repair-none progress blocked (a ∷ l) e =
    ground (arith, assess_repair-none progress blocked l)

pub assess_metrics-Stops :
    (config : AssessmentConfig) (progress : List SampleProgress) (l : List ExposureAttempt)
    → Stops (assess_metrics config progress l)
unfolding assess_metrics
assess_metrics-Stops config progress [] = tt
assess_metrics-Stops config progress (a ∷ l) =
    elim (Option-cases (metrics_complaint config a.dose a.runtime)) [
      | inl e ↦ rw (e, assess_metrics) (assess_metrics-Stops config progress l)
      | inr (m, e) ↦ rw (e, assess_metrics) refl
    ]

pub assess_metrics-none :
    (config : AssessmentConfig) (progress : List SampleProgress) (l : List ExposureAttempt)
    → assess_metrics config progress l ≡ none
    → All (λ a. metrics_complaint config a.dose a.runtime ≡ none) l
unfolding assess_metrics
assess_metrics-none config progress [] e = tt
assess_metrics-none config progress (a ∷ l) e =
    elim (Option-cases (metrics_complaint config a.dose a.runtime)) [
      | inl n ↦ (n, assess_metrics-none config progress l (rw (n, assess_metrics) at e))
      | inr (m, n) ↦ let impossible = rw (n, assess_metrics) at e in cc
    ]

pub assess_aborted-Stops :
    (progress : List SampleProgress) (l : List ExposureAttempt) → Stops (assess_aborted progress l)
unfolding assess_aborted
assess_aborted-Stops progress [] = tt
assess_aborted-Stops progress (a ∷ l) = refl

pub assess_aborted-none :
    (progress : List SampleProgress) (l : List ExposureAttempt)
    → assess_aborted progress l ≡ none
    → l ≡ []
unfolding assess_aborted
assess_aborted-none progress [] e = refl
assess_aborted-none progress (a ∷ l) e = cc

pub assess_short-Stops :
    (progress : List SampleProgress) (acknowledged : List ℕ) (latest : List ExposureAttempt)
    (first : Option SampleProgress)
    → Stops (assess_short progress acknowledged latest first)
unfolding assess_short
assess_short-Stops progress acknowledged latest none = tt
assess_short-Stops progress acknowledged latest (some p) =
    elim (Option-cases (find_first (has_sample p.sample) latest)) [
      | inl e ↦ rw (e, assess_short) tt
      | inr (a, e) ↦ rw (e, assess_short) (ground arith)
    ]
