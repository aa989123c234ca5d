-- ===== src/Batch/Coordinator/Tries.antt =====
-- How often class BatchCoordinator of src/chamber_ctl/subsystems/batcher.py has the metrics of a run
-- repaired that stay as they are.
use chamber_ctl.Batch.Coordinator.Poll.{poll_once}
use chamber_ctl.Batch.Coordinator.{
  BatchCoordinator, count_of, ExposureAttempt, Sources, is_repaired,
}
use chamber_ctl.Prelude.{
  some, false, zero, suc, ℕ, List, ◌≡◌, if◌then◌else◌, ◌+◌, ◌==◌, ok, none, Option,
}

module _ {W : Type 0} (sources : Sources W) (run : ℕ) where
  -- A count of the repairs of the run that were asked for, and a history that never shows them.
  pub record IsUnrepaired (tries : W → ℕ) : Type 0 where
    pub repairs :
        (key : ℕ) (w : W)
        → tries (sources.repair_metrics key w).1 ≡ tries w + (if key == run then 1 else 0)
    pub loads : (w : W) → tries (sources.load_attempts w).1 ≡ tries w
    pub shows : (w : W) → tries (sources.snapshot w).1 ≡ tries w
    pub clocks : (w : W) → tries (sources.wall_clock w).1 ≡ tries w
    pub hides :
        (key : ℕ) (w : W) {attempts : List ExposureAttempt}
        → (sources.load_attempts w).0 ≡ ok attempts
        → is_repaired key attempts ≡ false

  module _ {tries : W → ℕ} (u : IsUnrepaired tries) where
    -- Between two states as many repairs of the run were asked for as are counted.
    abbrev AreCounted : BatchCoordinator → W → BatchCoordinator → W → Type 0
    AreCounted c w c' w' =
        tries w' + count_of run c.repair_attempts ≡ tries w + count_of run c'.repair_attempts

    -- A poll counts the repairs that it asks for, and keeps the configuration.
    abbrev IsPolled : BatchCoordinator → W → BatchCoordinator → W → Type 0
    IsPolled c w c' w' = AreCounted c w c' w' × (c'.config ≡ c.config)

  -- Some polls, one after the other.
  unfoldable pub poll_times : ℕ → (fuel : ℕ) → BatchCoordinator → W → Option (BatchCoordinator × W)
  poll_times zero fuel c w = some (c, w)
  poll_times (suc n) fuel c w = elim (poll_once sources fuel c w) [
    | none ↦ none
    | some (r, c', w') ↦ poll_times n fuel c' w'
  ]
