-- ===== src/Batch/Generate/Lookup.antt =====
-- What `apply_plan_generator` of src/chamber_ctl/subsystems/batcher.py changes of a plan.
use chamber_ctl.Batch.Generate.{is_entry_of, keep_overrides, GeneratorApplication}
use chamber_ctl.Batch.Plan.{integer, make_entry, Planned, BatchPlan, BatchPlanEntry, Value, member}
use chamber_ctl.Prelude.{
  [], none, some, true, false, pos, ok, err, ℕ, List, Text, find_first, ◌≡◌, Option,
}

abbrev Assigned : BatchPlan → Text → Value → ℕ → List ℕ → List BatchPlanEntry → Type 0
Assigned plan mode target n ordered result =
    (member n ordered ≡ true
      → (e : BatchPlanEntry) × (make_entry (integer (pos n)) mode target [] ≡ ok e)
        × (find_first (is_entry_of n) result ≡ some (keep_overrides plan.entries e)))
    × (member n ordered ≡ false
        → find_first (is_entry_of n) result ≡ find_first (is_entry_of n) plan.entries)

abbrev entries_of : Planned GeneratorApplication → List BatchPlanEntry
entries_of (ok a) = a.plan.entries
entries_of (err e) = []

abbrev samples_of : Planned GeneratorApplication → List ℕ
samples_of (ok a) = a.samples
samples_of (err e) = []

-- The new entry with the overrides of the old one, if there is an old one.
abbrev pub HasOverrides : Option BatchPlanEntry → BatchPlanEntry → BatchPlanEntry → Type 0
HasOverrides none e kept = kept ≡ e
HasOverrides (some old) e kept = kept ≡ record e { overrides = old.overrides }
