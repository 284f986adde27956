-- ===== src/Training.antt =====
-- backend/app/services/training_metadata_store.py and training_orchestrator.py: training runs, their
-- checkpoints, and what they are estimated to cost.
pub mod Tables
pub mod Rows
pub mod Metadata
pub mod Estimate
pub mod Runs
pub mod Effects
pub mod Ticks
pub mod Progress
pub mod Lifecycle
pub mod Reachable
pub mod Requests
pub mod RowTables
pub mod Routes
mod Examples
