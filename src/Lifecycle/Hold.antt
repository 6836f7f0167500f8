-- ===== src/Lifecycle/Hold.antt =====
-- The quarantine of 48 hours, from the empty catalogue to the request for purge.
use onlybackup.Lifecycle.Reach.{Reach}
