-- ===== src/Batch/Settings.antt =====
-- The settings of one exposure: ExposureSettings of
-- src/chamber_ctl/subsystems/exposure_controller.py and `settings_for` of class ExposureTemplate,
-- src/chamber_ctl/subsystems/batcher.py.
use chamber_ctl.Prelude.{
  ◌>>◌, ℕ, Bool, true, false, ◌&&◌, Option, List, [], ◌∷◌, ℤ, Float, is_finite, flt, zero_float,
  Text, if◌then◌else◌, ok, guard,
}
use chamber_ctl.Batch.Plan.{
  ExposureTemplate, BatchPlanEntry, Planned, TextField, NumberField, Override, text_override,
  number_override, is_time, bad_derived_target,
}

pub record ExposureSettings : Type 0 where
  pub name : Text
  pub description : Text
  pub target_time : Float
  pub target_dose : Float
  pub operator : Text
  pub zr_filter : Text
  pub sample : ℕ
  pub sample_type : Text
  pub base_pressure : Float
  pub operating_pressure : Float
  pub flow_sccm : Float
  pub calibration_profile_id : Text
  pub calibration_revision : ℤ
  pub chopper_frequency_hz : Option Float

-- `values.update(entry.overrides)`, read at one key: a later item wins.
abbrev pub same_text_field : TextField → TextField → Bool
same_text_field TextField.name TextField.name = true
same_text_field TextField.description TextField.description = true
same_text_field TextField.operator TextField.operator = true
same_text_field TextField.zr_filter TextField.zr_filter = true
same_text_field TextField.sample_type TextField.sample_type = true
same_text_field _ _ = false

abbrev pub same_number_field : NumberField → NumberField → Bool
same_number_field NumberField.base_pressure NumberField.base_pressure = true
same_number_field NumberField.operating_pressure NumberField.operating_pressure = true
same_number_field NumberField.flow_sccm NumberField.flow_sccm = true
same_number_field _ _ = false

abbrev pub text_or : TextField → Text → List Override → Text
text_or field value [] = value
text_or field value (text_override f t ∷ os) =
    text_or field (if same_text_field field f then t else value) os
text_or field value (number_override f x ∷ os) = text_or field value os

abbrev pub number_or : NumberField → Float → List Override → Float
number_or field value [] = value
number_or field value (text_override f t ∷ os) = number_or field value os
number_or field value (number_override f x ∷ os) =
    number_or field (if same_number_field field f then x else value) os

-- `ExposureTemplate.settings_for`
unfoldable pub settings_for : ExposureTemplate → BatchPlanEntry → Float → Planned ExposureSettings
settings_for t e target = do
  guard (is_finite target && flt zero_float target) bad_derived_target
  ok (record {
    name = text_or TextField.name t.name e.overrides;
    description = text_or TextField.description t.description e.overrides;
    target_time = if is_time e.mode then target else zero_float;
    target_dose = if is_time e.mode then zero_float else target;
    operator = text_or TextField.operator t.operator e.overrides;
    zr_filter = text_or TextField.zr_filter t.zr_filter e.overrides;
    sample = e.sample;
    sample_type = text_or TextField.sample_type t.sample_type e.overrides;
    base_pressure = number_or NumberField.base_pressure t.base_pressure e.overrides;
    operating_pressure = number_or NumberField.operating_pressure t.operating_pressure e.overrides;
    flow_sccm = number_or NumberField.flow_sccm t.flow_sccm e.overrides;
    calibration_profile_id = t.calibration_profile_id;
    calibration_revision = t.calibration_revision;
    chopper_frequency_hz = t.chopper_frequency_hz;
  })
