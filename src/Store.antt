-- ===== src/Store.antt =====
-- backend/app/services/state_store.py: `InMemoryStateStore`.
pub mod State
pub mod Nodes
pub mod Planning
pub mod Keys
pub mod Jobs
pub mod Claim
pub mod Evaluate
pub mod Submit
pub mod Expire
pub mod Stats
pub mod Authority
pub mod Grants
pub mod Verdicts
pub mod Health
pub mod Lifecycle
mod Examples
