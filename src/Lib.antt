-- ===== src/Lib.antt =====
-- OnlyBackup: a server that keeps encrypted deposits of its clients, and removes old ones under rules.
--
-- The program. A receiver takes uploads and hands them to a writer, which reserves, stores and completes each
-- deposit in a catalogue (an SQLite database). An automation decides, from the fill of the disk and a learned
-- model of each key, which deposits to quarantine; a maintenance process executes an operation on the files
-- after the catalogue has authorized it, and confirms the outcome. Anomalies block the removal, and mails tell
-- the administrator. The processes meet only in the catalogue, so it is the centre of this development.
--
-- The files.
--   Prelude            equality tests, lists, tables as lists of rows, and results that may be an error
--   Model              internal/model/model.go: the records and enumerations, the validations of texts, and Header
--                      (EncodeMetadata, DecodeMetadata)
--   Catalog            the tables of the schema of internal/store/store.go as one record Db, and laws of tables
--   Policy             internal/policy/policy.go: Protection (RetentionProtected), Capacity (Filesystem), Select
--   Store              internal/store/store.go, retention.go, maintenance_retry.go and mail_anomaly.go: Keys
--                      (profiles, keys and Quota), Reserve (ReserveIdempotentChecked), Complete, Failure, Request
--                      (RequestQuarantine, RequestPurge, RequestRecovery), Permit (AuthorizeOperation,
--                      ValidateOperation), Confirm (ConfirmOperation and its reconciliation), Cancel, Lease,
--                      Anomaly, Exclusion, Resolve, Automation, Mail, Learned (SaveModel), Checks (monitoring_checks.go, with
--                      PlanMonitoringCheck in Plan and CompleteMonitoringCheck in Finish); the other modules
--                      hold their theorems
--   Ingest             internal/ingest/writer.go: Requests and Serve (ServeHTTP), Slots (Admit, Abort), Copy
--                      (copyAndHash), Receive, Restart (Reconcile, and internal/backupfile/verify.go), Disk
--                      (checkDisk), Files (the directories), Accepted (what a request has passed)
--   Gateway            internal/gateway/gateway.go: the checks, the forwarded request and its answer
--   Tracker            internal/lifecycle/lifecycle.go: the tracker of running work
--   Maintenance        internal/maintenance/service.go: Physical (executeLeased and the moves of files)
--   Lifecycle          the state machine of a deposit, the transactions as steps, and what all of them keep
--   Tests              runs on concrete catalogues
--
-- The correspondence. A table is the list of its rows in the order of insertion; SELECT, UPDATE, DELETE and the
-- aggregates are functions with the WHERE clause as a Boolean test. A transaction is a function from the
-- catalogue to a result: an error stands for a rollback, so no catalogue comes with it. Times are nanoseconds
-- since 1970; an int64 that the program never makes negative is a natural number, and the places where the code
-- guards an overflow keep the guard, and the measures of the filesystem wrap as uint64 does. A date that is
-- moved by days is moved in UTC, as the callers of the anomalies' limit of 14 days pass it, but for the
-- completions of Reconcile. Random identifiers, tokens and the clock are arguments. SHA-256, the time
-- zone database and the parsing of mail addresses are fields of Environment.
--
-- A directory is the list of its files by identifier with their bytes, and every call of the file system that
-- may fail has an argument for its error. What the network delivers and a file takes are devices: each read and
-- write is a function of their state, with laws that io.Reader and io.Writer document.
--
-- Loops of the program are recursions on lists, except the copy of a body, which runs on fuel: one unit more than
-- the limit on the bytes, which is enough because every round but the last reads a byte.
--
-- Not modelled: failures of the database itself (they roll back as every error does), the incidents that
-- evaluateCompletedInTransaction computes in floating point (an argument of complete_deposit, so what is proved
-- holds for any), the learning and forecasts of internal/policy, the rounds of the maintenance process around the
-- operations on files, the listings, the local administration, the client, the commands, the transports and
-- the migrations of old schemas.
pub mod Prelude
pub mod Model
pub mod Catalog
pub mod Policy
pub mod Store
pub mod Lifecycle
pub mod Tracker
pub mod Ingest
pub mod Gateway
pub mod Maintenance
pub mod Tests
