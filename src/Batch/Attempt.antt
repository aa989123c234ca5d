-- ===== src/Batch/Attempt.antt =====
-- The runs of a batch and what they add up to: ExposureAttempt, SampleProgress, `_progress_for`,
-- `_attempt_error` and `_metrics_need_repair` of src/chamber_ctl/subsystems/batcher.py.
-- A UUID is its 128-bit number; its text, in hexadecimal digits of fixed places, orders the same way.
use chamber_ctl.Prelude.{
  ℕ, Bool, true, false, not, ◌&&◌, ◌||◌, Option, none, some, List, [], ◌∷◌, map, ℤ, pos, negsuc,
  ltb, ◌==◌, Float, is_finite, flt, feq, fadd, fsub, fmax, fsum_from, zero_float, Text, codes,
  text_eq, strip, upper, if◌then◌else◌, length, select, is_some,
}
use chamber_ctl.Batch.Plan.{TargetMode, is_time, BatchPlanEntry, BatchPlan, member}

pub record ExposureAttempt : Type 0 where
  pub run_uuid : ℕ
  pub sample : Option ℤ
  pub created_at : Float
  pub end_time : Option Float
  pub status : Option Text
  pub end_reason : Option Text
  pub dose : Option Float
  pub runtime : Option Float
  pub snapshot_count : ℤ
  pub validation_error : Option Text

pub record AssessmentConfig : Type 0 where
  pub finalization_delay : Float
  pub dose_tolerance : Float
  pub time_tolerance : Float
  pub minimum_dose : Float
  pub minimum_runtime : Float

pub data SampleProgressState : Type 0 where
  under_target within_tolerance overshot : SampleProgressState

pub record SampleProgress : Type 0 where
  pub sample : ℕ
  pub mode : TargetMode
  pub target : Float
  pub tolerance : Float
  pub cumulative_dose : Float
  pub cumulative_runtime : Float
  pub attempt_count : ℕ
  pub state : SampleProgressState

abbrev pub actual : SampleProgress → Float
actual p = if is_time p.mode then p.cumulative_runtime else p.cumulative_dose

abbrev pub remainder : SampleProgress → Float
remainder p = fmax zero_float (fsub p.target (actual p))

abbrev pub overshoot : SampleProgress → Float
overshoot p = fmax zero_float (fsub (actual p) p.target)

-- `attempt.sample == sample`
abbrev pub is_sample : ℕ → Option ℤ → Bool
is_sample n (some (pos m)) = m == n
is_sample n _ = false

-- The items that are not None.
abbrev pub present : List (Option Float) → List Float
present [] = []
present (none ∷ xs) = present xs
present (some x ∷ xs) = x ∷ present xs

abbrev pub progress_state : Float → Float → Float → SampleProgressState
progress_state actual target tolerance =
    if flt actual (fsub target tolerance)
    then under_target
    else if flt (fadd target tolerance) actual
    then overshot
    else within_tolerance

unfoldable pub progress_of :
    AssessmentConfig → List ExposureAttempt → BatchPlanEntry → SampleProgress
progress_of config attempts entry =
    let own = select (λ a. is_sample entry.sample a.sample) attempts in
    let cumulative_dose = fsum_from zero_float (present (map (λ a. a.dose) own)) in
    let cumulative_runtime = fsum_from zero_float (present (map (λ a. a.runtime) own)) in
    let actual = if is_time entry.mode then cumulative_runtime else cumulative_dose in
    let tolerance = if is_time entry.mode then config.time_tolerance else config.dose_tolerance in
    record {
      sample = entry.sample;
      mode = entry.mode;
      target = entry.target;
      tolerance = tolerance;
      cumulative_dose = cumulative_dose;
      cumulative_runtime = cumulative_runtime;
      attempt_count = length own;
      state = progress_state actual entry.target tolerance;
    }

unfoldable pub progress_for :
    BatchPlan → List ExposureAttempt → AssessmentConfig → List SampleProgress
progress_for plan attempts config = map (progress_of config attempts) plan.entries

-- The texts that `_attempt_error` returns.
pub data AttemptError : Type 0 where
  recorded_error : Text → AttemptError
  unknown_sample invalid_creation_time invalid_snapshot_count : AttemptError
  inconsistent_terminal_metadata invalid_end_time : AttemptError

-- A text that counts as true.
abbrev pub truthy : Option Text → Option Text
truthy (some (c ∷ cs)) = some (c ∷ cs)
truthy _ = none

abbrev pub is_planned : List ℕ → Option ℤ → Bool
is_planned planned (some (pos n)) = member n planned
is_planned planned _ = false

abbrev pub is_negative : ℤ → Bool
is_negative (pos n) = false
is_negative (negsuc n) = true

abbrev pub end_time_finite : Option Float → Bool
end_time_finite none = true
end_time_finite (some f) = is_finite f

abbrev pub same_bool : Bool → Bool → Bool
same_bool true b = b
same_bool false b = not b

unfoldable pub attempt_error : ExposureAttempt → List ℕ → Option AttemptError
attempt_error a planned = elim (truthy a.validation_error) [
  | some message ↦ some (recorded_error message)
  | none ↦
      if not (is_planned planned a.sample)
      then some unknown_sample
      else if not (is_finite a.created_at)
      then some invalid_creation_time
      else if is_negative a.snapshot_count
      then some invalid_snapshot_count
      else if not (same_bool (is_some a.status) (is_some a.end_time))
      then some inconsistent_terminal_metadata
      else if not (end_time_finite a.end_time)
      then some invalid_end_time
      else none
]

abbrev pub is_zero_float : Float → Bool
is_zero_float f = feq f zero_float

abbrev pub is_positive : ℤ → Bool
is_positive (pos n) = ltb 0 n
is_positive (negsuc n) = false

abbrev pub zero_metrics : ℤ → Option Float → Option Float → Bool
zero_metrics count (some dose) (some runtime) =
    is_positive count && (is_zero_float dose || is_zero_float runtime)
zero_metrics count _ _ = true

unfoldable pub metrics_need_repair : ExposureAttempt → Bool
metrics_need_repair a = zero_metrics a.snapshot_count a.dose a.runtime

-- `str(attempt.status).strip().upper()` compared with a status.
unfoldable pub has_status : Text → ExposureAttempt → Bool
has_status name a = elim a.status [
  | some status ↦ text_eq (upper (strip status)) name
  | none ↦ text_eq (codes "NONE") name
]

abbrev pub stopped : Text
stopped = codes "STOPPED"

abbrev pub aborted : Text
aborted = codes "ABORTED"
