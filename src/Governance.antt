-- ===== src/Governance.antt =====
-- The gates of packages/core/src/application on what the program may do: risk, approval, the
-- execution of commands with its receipts, and the life of a task.
pub mod Risk
pub mod Approval
pub mod Execution
pub mod Command
pub mod Receipt
pub mod Task
mod Tests
