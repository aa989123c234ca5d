-- ===== src/Batch/Plan.antt =====
-- What a batch is to do: ExposureTemplate, BatchPlanEntry and BatchPlan of
-- src/chamber_ctl/subsystems/batcher.py. A template's calibration bindings are left out but for the
-- run tags that they give.
use chamber_ctl.Prelude.{
  ◌>>=◌, ◌>>◌, ℕ, Bool, true, false, not, ◌&&◌, ◌||◌, Option, none, some, List, [], ◌∷◌, map, ℤ,
  pos, negsuc, ltb, ◌==◌, Float, is_finite, flt, fle, feq, zero_float, Text, codes, text_eq,
  if◌then◌else◌, float_of_int, is_some, all, any, nan, Result, ok, err, guard,
}

-- The ValueErrors of the planner.
pub data Error : Type 0 where
  non_finite_field negative_revision bad_chopper_frequency : Error
  unsupported_override override_not_text override_not_finite : Error
  bad_sample bad_mode non_finite_target negative_target : Error
  duplicate_sample bad_derived_target : Error
  no_samples duplicate_selection selection_out_of_range : Error
  time_not_finite no_such_entry : Error

-- What the planner returns or raises.
abbrev pub Planned {ℓ} : Type ℓ → Type ℓ
Planned A = Result Error A

-- A value of the dynamic language, as far as the validation tells values apart.
pub data Value : Type 0 where
  boolean : Bool → Value
  integer : ℤ → Value
  real : Float → Value
  text : Text → Value
  other : Value

-- `_is_finite_number`
abbrev pub is_finite_number : Value → Bool
is_finite_number (integer z) = true
is_finite_number (real f) = is_finite f
is_finite_number _ = false

-- `float(value)` of a finite number.
abbrev pub to_float : Value → Float
to_float (integer z) = float_of_int z
to_float (real f) = f
to_float _ = nan

pub data TargetMode : Type 0 where
  dose time : TargetMode

pub data TextField : Type 0 where
  name description operator zr_filter sample_type : TextField

pub data NumberField : Type 0 where
  base_pressure operating_pressure flow_sccm : NumberField

-- A checked override of one field.
pub data Override : Type 0 where
  text_override : TextField → Text → Override
  number_override : NumberField → Float → Override

pub record ExposureTemplate : Type 0 where
  pub name : Text
  pub description : Text
  pub operator : Text
  pub zr_filter : Text
  pub sample_type : Text
  pub base_pressure : Float
  pub operating_pressure : Float
  pub flow_sccm : Float
  pub calibration_profile_id : Text
  pub calibration_revision : ℤ
  pub chopper_frequency_hz : Option Float
  pub source_tags : List Text  -- the names of the run tags of its calibration bindings

pub record BatchPlanEntry : Type 0 where
  pub sample : ℕ
  pub mode : TargetMode
  pub target : Float
  pub overrides : List Override

pub record BatchPlan : Type 0 where
  pub template : ExposureTemplate
  pub entries : List BatchPlanEntry

abbrev pub is_nonneg : ℤ → Bool
is_nonneg (pos n) = true
is_nonneg (negsuc n) = false

abbrev pub is_frequency : Option Float → Bool
is_frequency none = true
is_frequency (some f) = is_finite f && not (fle f zero_float)

-- `ExposureTemplate.__post_init__`
unfoldable pub check_template : ExposureTemplate → Planned ExposureTemplate
check_template t = do
  guard (is_finite t.base_pressure && is_finite t.operating_pressure && is_finite t.flow_sccm)
      non_finite_field
  guard (is_nonneg t.calibration_revision) negative_revision
  guard (is_frequency t.chopper_frequency_hz) bad_chopper_frequency
  ok t

abbrev pub text_field : Text → Option TextField
text_field key =
    if text_eq key (codes "name")
    then some TextField.name
    else if text_eq key (codes "description")
    then some TextField.description
    else if text_eq key (codes "operator")
    then some TextField.operator
    else if text_eq key (codes "zr_filter")
    then some TextField.zr_filter
    else if text_eq key (codes "sample_type")
    then some TextField.sample_type
    else none

abbrev pub number_field : Text → Option NumberField
number_field key =
    if text_eq key (codes "base_pressure")
    then some NumberField.base_pressure
    else if text_eq key (codes "operating_pressure")
    then some NumberField.operating_pressure
    else if text_eq key (codes "flow_sccm")
    then some NumberField.flow_sccm
    else none

abbrev pub is_override_field : Text → Bool
is_override_field key = is_some (text_field key) || is_some (number_field key)

abbrev pub text_value : TextField → Value → Planned Override
text_value field (text t) = ok (text_override field t)
text_value field _ = err override_not_text

abbrev pub number_value : NumberField → Value → Planned Override
number_value field value = do
  guard (is_finite_number value) override_not_finite
  ok (number_override field (to_float value))

abbrev pub normalized_override : Text × Value → Planned Override
normalized_override (key, value) = elim (text_field key) [
  | some field ↦ text_value field value
  | none ↦ elim (number_field key) [
    | some field ↦ number_value field value
    | none ↦ err unsupported_override
  ]
]

abbrev pub normalize_each : List (Text × Value) → Planned (List Override)
normalize_each [] = ok []
normalize_each (x ∷ xs) = do o ← normalized_override x; os ← normalize_each xs; ok (o ∷ os)

-- `_normalized_overrides` of a mapping, given by its items: unknown keys are refused first.
unfoldable pub normalized_overrides : List (Text × Value) → Planned (List Override)
normalized_overrides items = do
  guard (all (λ (key, _). is_override_field key) items) unsupported_override
  normalize_each items

abbrev pub sample_index : Value → Planned ℕ
sample_index (integer (pos n)) = do guard (ltb n 12) bad_sample; ok n
sample_index _ = err bad_sample

abbrev pub target_mode : Text → Planned TargetMode
target_mode mode =
    if text_eq mode (codes "dose")
    then ok dose
    else if text_eq mode (codes "time")
    then ok time
    else err bad_mode

abbrev pub is_time : TargetMode → Bool
is_time dose = false
is_time time = true

-- `BatchPlanEntry(sample, mode, target, overrides)`
unfoldable pub make_entry : Value → Text → Value → List (Text × Value) → Planned BatchPlanEntry
unfolding normalized_overrides
make_entry sample mode target overrides = do
  index ← sample_index sample
  normalized_mode ← target_mode mode
  guard (is_finite_number target) non_finite_target
  let number = to_float target
  guard (not (flt number zero_float || (is_time normalized_mode && feq number zero_float)))
      negative_target
  normalized ← normalized_overrides overrides
  ok (record { sample = index; mode = normalized_mode; target = number; overrides = normalized })

unfoldable pub is_control : BatchPlanEntry → Bool
is_control e = not (is_time e.mode) && feq e.target zero_float

-- `value in list`
abbrev pub member : ℕ → List ℕ → Bool
member n = any (λ m. n == m)

abbrev pub has_duplicates : List ℕ → Bool
has_duplicates [] = false
has_duplicates (n ∷ ns) = member n ns || has_duplicates ns

abbrev pub samples : List BatchPlanEntry → List ℕ
samples = map (λ e. e.sample)

-- `BatchPlan(template, entries)`
unfoldable pub make_plan : ExposureTemplate → List BatchPlanEntry → Planned BatchPlan
make_plan template entries = do
  guard (not (has_duplicates (samples entries))) duplicate_sample
  ok (record { template = template; entries = entries })
