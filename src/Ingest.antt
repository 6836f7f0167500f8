-- ===== src/Ingest.antt =====
-- The writer of internal/ingest/writer.go: the requests that it accepts, the check of the disk, the copying of
-- a body into a staging file, the publication, and the reconciliation after a restart.
pub mod Requests
pub mod Accepted
pub mod Disk
pub mod Copy
pub mod Files
pub mod Receive
pub mod Restart
pub mod Slots
pub mod Serve
