-- ===== src/Scheduler.antt =====
-- src/sf_factory/scheduler.py: the scan of the units and the dispatch of their executors.
pub mod Tests
pub mod Proving
pub mod Scan
pub mod Containment
pub mod Dispatch
