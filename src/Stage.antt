-- ===== src/Stage.antt =====
-- The sample stage's controller program, sample-stage-ctl/src/sample_stage_ctl.
pub mod Stepper
pub mod Driver
pub mod Wire
pub mod Client
mod Tests
mod Exchange
