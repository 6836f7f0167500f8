-- ===== src/Lifecycle.antt =====
-- The life of a deposit: the edges along which the operations of internal/store move the status of a
-- row of backups, and what they never change of it.
pub mod Edge
pub mod Rows
pub mod Updates
pub mod Operations
pub mod Outcomes
pub mod Undo
pub mod Deposits
pub mod Completion
pub mod Other
pub mod Monitoring
pub mod Steps
pub mod Mail
pub mod History
pub mod Reach
pub mod Hold
