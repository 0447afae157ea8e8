-- ===== src/Continuation.antt =====
-- The runs of tasks that continue a handed-over piece of work: the evidence that a run was contained,
-- the tables of packages/storage-sqlite that guard it, and what sequences of calls leave there.
pub mod Evidence
pub mod Documents
pub mod Tables
pub mod Runs
pub mod Admission
pub mod Calls
pub mod Ledger
mod Tests
