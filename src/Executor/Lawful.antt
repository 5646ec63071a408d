-- ===== src/Executor/Lawful.antt =====
-- Whatever the steps of the stage executor do to the units is a run of legal moves, and is in the log.
pub mod Rules
pub mod Writes
pub mod Gate
pub mod Verdict
pub mod Escalated
pub mod Breach
