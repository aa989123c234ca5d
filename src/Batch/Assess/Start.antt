-- ===== src/Batch/Assess/Start.antt =====
-- The decisions to start an exposure and to call a batch complete, of `assess_batch`,
-- src/chamber_ctl/subsystems/batcher.py.
use chamber_ctl.Prelude.{
  refl, [], ◌∷◌, All, true, false, find_first, Option, some, none, Bool, inl, inr, find_first-none,
  ◌≡◌, List, pos, Bool-cases, arith, ◌==◌, ok, >>=-ok,
}
use chamber_ctl.Batch.Plan.{BatchPlan, BatchPlanEntry}
use chamber_ctl.Batch.Settings.{settings_for, ExposureSettings}
use chamber_ctl.Batch.Attempt.{ExposureAttempt, SampleProgress, remainder, progress_for}
use chamber_ctl.Batch.Order.{sort_attempts}
use chamber_ctl.Batch.Decision.{ControllerSnapshot, BatchAssessment, start_remainder, complete}
use chamber_ctl.Batch.Assess.{assess_batch, Inputs, start_sample, is_under, assess_next}
use chamber_ctl.Batch.Assess.Settled.{IsSettled, assess_batch-final}

-- The exposure that a decision starts: of the sample of `p`, for what it still lacks, with the
-- settings that the plan's template gives for one of its entries.
pub record Starts (plan : BatchPlan) (p : SampleProgress) (a : BatchAssessment) : Type 0 where
  pub entry : BatchPlanEntry
  pub settings : ExposureSettings
  pub entry_sample : entry.sample ≡ p.sample
  pub derived : settings_for plan.template entry (remainder p) ≡ ok settings
  pub decided_settings : a.decision.settings ≡ some settings
  pub decided_sample : a.decision.sample ≡ some (pos p.sample)

pub start_sample-Starts :
    (plan : BatchPlan) (progress : List SampleProgress) (p : SampleProgress)
    (l : List BatchPlanEntry) {a : BatchAssessment}
    → start_sample plan progress p l ≡ ok a
    → (a.decision.kind ≡ start_remainder) × (a.progress ≡ progress) × Starts plan p a
unfolding start_sample
start_sample-Starts plan progress p [] e = cc
start_sample-Starts plan progress p (x ∷ l) {a} e = elim (Bool-cases (x.sample == p.sample)) [
  | inl same ↦
      let chosen = rw same at e in
      let (settings, derived, decided) =
        >>=-ok (settings_for plan.template x (remainder p)) _ chosen in
      (
        ground arith,
        ground arith,
        record {
          entry = x;
          settings = settings;
          entry_sample = ground arith;
          derived = derived;
          decided_settings = ground arith;
          decided_sample = ground arith;
        },
      )
  | inr other ↦ start_sample-Starts plan progress p l (rw other at e)
]

assess_next-start :
    (plan : BatchPlan) (c : ControllerSnapshot) (paused_by_hand : Bool)
    (progress : List SampleProgress) (first : Option SampleProgress) {a : BatchAssessment}
    → assess_next plan c paused_by_hand progress first ≡ ok a
    → a.decision.kind ≡ start_remainder
    → (paused_by_hand ≡ false)
      × (c.available ≡ true)
      × (c.idle ≡ true)
      × (c.current_run_uuid ≡ none)
      × (p : SampleProgress) × (first ≡ some p)
      × (start_sample plan progress p plan.entries ≡ ok a)
unfolding assess_next
assess_next-start plan c paused_by_hand progress none e k = ground arith
assess_next-start plan c paused_by_hand progress (some p) e k =
    (ground arith, ground arith, ground arith, ground arith, p, refl, ground arith)

assess_next-complete :
    (plan : BatchPlan) (c : ControllerSnapshot) (paused_by_hand : Bool)
    (progress : List SampleProgress) (first : Option SampleProgress) {a : BatchAssessment}
    → assess_next plan c paused_by_hand progress first ≡ ok a
    → a.decision.kind ≡ complete
    → (paused_by_hand ≡ false) × (first ≡ none) × (a.progress ≡ progress)
unfolding assess_next
assess_next-complete plan c paused_by_hand progress none e k = ground arith
assess_next-complete plan c paused_by_hand progress (some p) {a} e k =
    ground (arith, start_sample-Starts plan progress p plan.entries {a = a})

module _ (plan : BatchPlan) (controller : ControllerSnapshot) (i : Inputs)
    (attempts : List ExposureAttempt) {a : BatchAssessment} where
  pub assess_batch-start :
      assess_batch plan attempts controller i ≡ ok a
      → a.decision.kind ≡ start_remainder
      → let progress = progress_for plan (sort_attempts attempts) i.config in
        All (IsSettled plan i) attempts
        × (i.paused_by_hand ≡ false)
        × (controller.available ≡ true)
        × (controller.idle ≡ true)
        × (controller.current_run_uuid ≡ none)
        × (p : SampleProgress) × (find_first is_under progress ≡ some p)
        × Starts plan p a
  assess_batch-start e k =
      let (settled, last) = assess_batch-final plan controller i attempts e (rw k refl) in
      let (unpaused, available, idle, no_run, p, first, started) =
        assess_next-start plan controller i.paused_by_hand _ _ last k in
      let (_, _, starts) = start_sample-Starts plan _ p plan.entries started in
      (settled, unpaused, available, idle, no_run, p, first, starts)

  -- A batch is complete only when every run is settled, it is not paused, and no sample of the plan
  -- is under its target.
  pub assess_batch-complete :
      assess_batch plan attempts controller i ≡ ok a
      → a.decision.kind ≡ complete
      → let progress = progress_for plan (sort_attempts attempts) i.config in
        All (IsSettled plan i) attempts
        × (i.paused_by_hand ≡ false)
        × All (λ p. is_under p ≡ false) progress
        × (a.progress ≡ progress)
  assess_batch-complete e k =
      let (settled, last) = assess_batch-final plan controller i attempts e (rw k refl) in
      let (unpaused, first, same) =
        assess_next-complete plan controller i.paused_by_hand _ _ last k in
      (settled, unpaused, find_first-none is_under _ first, same)
