-- ===== src/Executor.antt =====
-- `StageExecutor` of src/sf_factory/scheduler.py: one step for each state of a stage.
pub mod Queries
pub mod Register
pub mod Writes
pub mod Gate
pub mod Verdict
pub mod Escalated
pub mod Breach
pub mod Lawful
pub mod Arrival
pub mod Waiting
pub mod NoStaleAnswer
pub mod Answered
pub mod Opened
pub mod Executed
pub mod Stopped
pub mod NeverSilent
pub mod Refines
pub mod Tests
