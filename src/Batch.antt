-- ===== src/Batch.antt =====
-- The batch planner, src/chamber_ctl/subsystems/batcher.py.
pub mod Plan
pub mod Settings
pub mod Generate
pub mod Attempt
pub mod Decision
pub mod Order
pub mod Assess
pub mod Coordinator
pub mod Manifest
pub mod Storage
pub mod Service
mod Tests
mod Polling
mod Serving
mod Archive
mod Commands
