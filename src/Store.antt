-- ===== src/Store.antt =====
-- src/sf_factory/db.py with the tables and constraints of src/sf_factory/migrations/: the store.
pub mod Tests
pub mod Table
pub mod Db
pub mod Tx
pub mod Act
pub mod Database
pub mod Artifacts
pub mod Units
pub mod Events
pub mod Dag
pub mod Counters
pub mod Escalations
pub mod Findings
pub mod Decisions
pub mod Processes
pub mod Tokens
pub mod Settings
