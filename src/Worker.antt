-- ===== src/Worker.antt =====
-- src/nc3_testing_platform/worker: the scan pipeline.
pub mod Models
pub mod Status
pub mod Outcome
pub mod Matrix
pub mod Transitions
pub mod Db
pub mod Finalize
pub mod Events
pub mod Dispatch
pub mod Evolution
pub mod Run
pub mod Module
pub mod Reap
pub mod Steps
