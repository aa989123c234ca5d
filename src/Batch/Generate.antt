-- ===== src/Batch/Generate.antt =====
-- Entries for chosen samples: `_ordered_samples`, TargetAssignmentGenerator, ControlGenerator and
-- `apply_plan_generator` of src/chamber_ctl/subsystems/batcher.py.
pub mod Lookup
use chamber_ctl.Batch.Plan.{
  integer, real, BatchPlan, Planned, Value, BatchPlanEntry, make_entry, no_samples,
  duplicate_selection, member, make_plan, selection_out_of_range,
}
use chamber_ctl.Prelude.{
  refl, [], ◌∷◌, none, some, true, false, inl, inr, pos, negsuc, ok, err, ◌>>=◌, ◌>>◌, guard, List,
  ℤ, ℕ, Text, codes, Bool, zero_float, any, ltb, is_some, ◌==◌, find_first, map, eqb_ℤ, get_elem?,
  select, ◌||◌, not, all, ◌++◌, pos_part,
}

abbrev pub has_duplicate_ints : List ℤ → Bool
has_duplicate_ints [] = false
has_duplicate_ints (z ∷ zs) = any (eqb_ℤ z) zs || has_duplicate_ints zs

abbrev pub is_index : ℤ → Bool
is_index (pos n) = ltb n 12
is_index (negsuc n) = false

-- `_ordered_samples`
unfoldable pub ordered_samples : List ℤ → Planned (List ℕ)
ordered_samples samples = do
  guard (is_some (get_elem? samples 0)) no_samples
  guard (not (has_duplicate_ints samples)) duplicate_selection
  guard (all is_index samples) selection_out_of_range
  ok (map pos_part samples)

-- A generator's `generate`, which may raise.
abbrev pub PlanGenerator : Type 0
PlanGenerator = List ℤ → Planned (List BatchPlanEntry)

unfoldable pub generate_each : (ℕ → Planned BatchPlanEntry) → List ℕ → Planned (List BatchPlanEntry)
generate_each entry [] = ok []
generate_each entry (n ∷ ns) = do first ← entry n; rest ← generate_each entry ns; ok (first ∷ rest)

abbrev pub assigned : Text → Value → ℕ → Planned BatchPlanEntry
assigned mode target n = make_entry (integer (pos n)) mode target []

-- `TargetAssignmentGenerator(mode, target).generate`
unfoldable pub target_assignment : Text → Value → PlanGenerator
target_assignment mode target samples = do
  ordered ← ordered_samples samples
  generate_each (assigned mode target) ordered

-- `ControlGenerator().generate`
unfoldable pub zero_dose_control : PlanGenerator
zero_dose_control = target_assignment (codes "dose") (real zero_float)

abbrev pub is_entry_of : ℕ → BatchPlanEntry → Bool
is_entry_of n e = e.sample == n

-- The samples of a plan differ, so the first entry of a sample is the one of the dictionary.
-- `replace(entry, overrides=existing_by_sample.get(entry.sample, entry).overrides)`
unfoldable pub keep_overrides : List BatchPlanEntry → BatchPlanEntry → BatchPlanEntry
keep_overrides existing e = elim (find_first (is_entry_of e.sample) existing) [
  | none ↦ e
  | some old ↦ record e { overrides = old.overrides }
]

pub record GeneratorApplication : Type 0 where
  pub plan : BatchPlan
  pub samples : List ℕ
  pub generated_entries : List BatchPlanEntry

-- `apply_plan_generator`
unfoldable pub apply_plan_generator :
    BatchPlan → PlanGenerator → List ℤ → Planned GeneratorApplication
apply_plan_generator plan generate samples = do
  ordered ← ordered_samples samples
  entries ← generate (map pos ordered)
  let generated = map (keep_overrides plan.entries) entries
  let retained = select (λ e. not (member e.sample ordered)) plan.entries
  updated ← make_plan plan.template (retained ++ generated)
  ok (record { plan = updated; samples = ordered; generated_entries = generated })
