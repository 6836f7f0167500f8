-- ===== src/Store.antt =====
-- internal/store: the operations on the catalogue. Each is one transaction: it returns the new catalogue,
-- or an error, and then the transaction is rolled back.
pub mod Mail
pub mod Anomaly
pub mod Lease
pub mod Resolve
pub mod Rules
pub mod Request
pub mod Permit
pub mod Confirm
pub mod Cancel
pub mod Reserve
pub mod Automation
pub mod Exclusion
pub mod Learned
pub mod Failure
pub mod Complete
pub mod Keys
pub mod Copies
pub mod Purges
pub mod Repeat
pub mod Grants
pub mod Blocks
pub mod Frame
pub mod Checks
