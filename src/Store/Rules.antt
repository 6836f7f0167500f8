-- ===== src/Store/Rules.antt =====
-- What the retention operations of internal/store/retention.go share: the joins and counts of their
-- queries, checkRetentionMinimumTx, the status updates and the insertion of an operation.
use onlybackup.Prelude.{
  ℕ, ◌+◌, String, Bool, false, ◌&&◌, ◌||◌, not, Option, none, some, List, [], ◌∷◌, ◌++◌, ◌==◌,
  nat_eq, string_eq, if◌then◌else◌, Result, Error, ok, err, constraint, no_rows, retention_minimum,
  from_option, refuse_if, ◌>>=◌, select, count, update, any,
}
use onlybackup.Model.Types.{
  Instant, unix, Status, complete, deleting, quarantined, receiving, Backup, Key, Kind, Operation,
  Origin, requested, authorized, Anomaly, status_eq, state_eq,
}
use onlybackup.Policy.Protection.{backup_time, retention_protected}
use onlybackup.Catalog.Tables.{Db, Environment, KeyRetention}

abbrev pub has_id : String → Backup → Bool
has_id id b = b.id == id

abbrev pub find_backup : String → Db → Result Backup
find_backup id db = from_option (select (has_id id) db.backups) no_rows

abbrev pub find_key : String → Db → Result Key
find_key id db = from_option (select (λ k. k.id == id) db.keys) no_rows

-- SELECT COUNT(*) FROM anomalies WHERE kind='file_missing' AND backup_id=? AND acknowledged_at<>0
unfoldable pub is_missing : List Anomaly → String → Bool
is_missing anomalies backup_id =
    any (λ a. a.kind == "file_missing" && a.backup_id == backup_id && not (a.acknowledged_at == 0))
      anomalies

-- a complete copy of a key that is not known to be missing
unfoldable pub is_copy : String → List Anomaly → Backup → Bool
is_copy key_id anomalies b =
    b.key_id == key_id && b.status == complete && not (is_missing anomalies b.id)

-- a stable copy: complete, about to be quarantined, or in quarantine
unfoldable pub is_stable_copy : String → List Anomaly → Backup → Bool
is_stable_copy key_id anomalies b =
    b.key_id == key_id
    && (b.status == complete || b.status == deleting || b.status == quarantined)
    && not (is_missing anomalies b.id)

-- COALESCE(r.days, a.retention_days)
days_or : ℕ → Option KeyRetention → ℕ
days_or default none = default
days_or default (some r) = r.days

unfoldable pub retention_days_for : String → Db → ℕ
unfolding days_or
retention_days_for key_id db =
    days_or db.automation.retention_days (select (λ r. r.key_id == key_id) db.key_retention)

-- checkRetentionMinimumTx
unfoldable pub check_retention_minimum : Environment → String → Instant → Db → Result (Unit {0})
check_retention_minimum env backup_id now db = do
  b ← find_backup backup_id db
  protected ←
      retention_protected env.load_location (backup_time b) now db.automation.timezone
        (retention_days_for b.key_id db)
  refuse_if protected retention_minimum

-- UPDATE backups SET … WHERE id=? AND status=?, which must affect exactly one row
unfoldable pub transition : String → Status → (Backup → Backup) → Error → Db → Result Db
transition id from f e db =
    if count (λ b. b.id == id && b.status == from) db.backups == 1
    then ok (record db { backups = update (λ b. b.id == id && b.status == from) f db.backups })
    else err e

abbrev pub is_active : Operation → Bool
is_active o = o.state == requested || o.state == authorized

-- INSERT INTO retention_operations; retention_operations_active allows one active operation for a backup
unfoldable pub insert_operation :
    String → Kind → Origin → String → String → Instant → Db → Result (Operation × Db)
insert_operation backup_id kind origin actor reason now db =
    let op : Operation = record {
      id = db.next_operation;
      backup_id = backup_id;
      kind = kind;
      state = requested;
      origin = origin;
      actor = actor;
      reason = reason;
      ticket_hash = "";
      revision = db.automation.model_revision;
      requested_at = unix now;
      authorized_at = 0;
      completed_at = 0;
      error = "";
      lease_generation = 0;
      execution_committed = false;
    } in
    if any (λ o. o.backup_id == backup_id && is_active o) db.operations
    then err (constraint "retention_operations.backup_id")
    else ok (
      op,
      record db { operations = db.operations ++ op ∷ []; next_operation = db.next_operation + 1 },
    )

-- UPDATE retention_operations SET … WHERE id=? AND …, which must affect a row
unfoldable pub update_operation :
    (Operation → Bool) → (Operation → Operation) → Error → Db → Result Db
update_operation p f e db =
    if any p db.operations then ok (record db { operations = update p f db.operations }) else err e

-- SELECT COUNT(*) FROM backups WHERE status='receiving'
unfoldable pub is_receiving : Db → Bool
is_receiving db = any (λ b. b.status == receiving) db.backups
