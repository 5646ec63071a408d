-- ===== src/Models.antt =====
-- src/sf_factory/models.py: the vocabulary of the control plane.
pub mod Tests
pub mod Level
pub mod StageState
pub mod PhaseState
pub mod UnitState
pub mod SchedCategory
pub mod Trigger
pub mod GateAnswers
pub mod Json
pub mod Records
pub mod Lifecycle
