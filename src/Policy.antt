-- ===== src/Policy.antt =====
-- internal/policy/policy.go: the decisions on retention and monitoring, which read no clock, file or
-- database.
pub mod Warning
pub mod Protection
pub mod Capacity
pub mod Select
