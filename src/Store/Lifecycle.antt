-- ===== src/Store/Lifecycle.antt =====
-- The life of a job: its phases, and the invariant on the jobs and the claims of the store that
-- every operation keeps while it moves each job only forward.
pub mod Base
pub mod Claims
pub mod Evaluations
pub mod Reports
pub mod Watchdog
pub mod Releases
