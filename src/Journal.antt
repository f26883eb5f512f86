-- ===== src/Journal.antt =====
-- scripts/worker_journal.py: the immutable phases of one Run, as records of a private directory.
pub mod Records
pub mod Validate
pub mod Publish
pub mod Chain
pub mod Prepare
pub mod Unresolved
