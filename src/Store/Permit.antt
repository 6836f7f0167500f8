-- ===== src/Store/Permit.antt =====
-- AuthorizeOperation and ValidateOperation of internal/store/retention.go. The ticket is the token that
-- model.NewToken draws, an argument here; only its hash is stored.
use onlybackup.Prelude.{
  ℕ, ◌+◌, String, Bool, true, false, ◌&&◌, not, leb, ◌==◌, nat_eq, string_eq, if◌then◌else◌, Result,
  ok, refused, retention_blocked, last_copy, ticket_refused, no_rows, from_option, ensure,
  refuse_if, ◌>>=◌, ◌>>◌, select, count,
}
use onlybackup.Model.Types.{
  Instant, unix, Operation, requested, authorized, recover, purge, MaintenanceLease, state_eq,
  kind_eq,
}
use onlybackup.Catalog.Tables.{Db, Environment, is_blocked}
use onlybackup.Store.Lease.{validate_lease}
use onlybackup.Store.Resolve.{can_retry}
use onlybackup.Store.Rules.{
  find_backup, find_key, is_stable_copy, check_retention_minimum, update_operation, is_receiving,
}

abbrev pub find_operation : ℕ → Db → Result Operation
find_operation id db = from_option (select (λ o. o.id == id) db.operations) no_rows

unfoldable pub is_destructive : Operation → Bool
is_destructive op = not (op.kind == recover)

unfoldable pub unit_if : Bool → Result (Unit {0}) → Result (Unit {0})
unit_if true check = check
unit_if false check = ok tt

-- the key of the operation's backup must not be revoked
unfoldable pub check_key : Operation → Db → Result (Unit {0})
check_key op db = do
  b ← find_backup op.backup_id db
  k ← find_key b.key_id db
  refuse_if k.revoked (refused "operazione distruttiva rifiutata: chiave revocata")

-- the hold, the minimum and the key, which both functions check of a destructive operation
unfoldable pub check_policy : Environment → Operation → Instant → Db → Result (Unit {0})
unfolding unit_if check_key is_destructive
check_policy env op now db = do
  refuse_if (is_blocked db.automation && is_destructive op && not (can_retry op now db))
      retention_blocked
  unit_if (is_destructive op) (check_retention_minimum env op.backup_id now db)
  unit_if (is_destructive op) (check_key op db)

-- a purge leaves at least one stable copy of its key
check_copies : Operation → Db → Result (Unit {0})
check_copies op db = do
  b ← find_backup op.backup_id db
  refuse_if (count (is_stable_copy b.key_id db.anomalies) db.backups == 0) last_copy

-- an operation whose execution is committed gets a new ticket in place of one that was lost
unfoldable pub reissue : Environment → Operation → String → MaintenanceLease → Db → Result Db
reissue env op ticket lease db = do
  ensure (op.state == authorized && op.execution_committed) ticket_refused
  update_operation
      (λ o. o.id == op.id && o.state == authorized && o.execution_committed && o.ticket_hash == "")
      (λ o. record o { ticket_hash = env.hash ticket; lease_generation = lease.generation }) no_rows
      db

unfoldable pub grant :
    Environment → Operation → String → MaintenanceLease → Instant → Db → Result Db
unfolding unit_if check_copies
grant env op ticket lease now db = do
  check_policy env op now db
  unit_if (op.kind == purge) (check_copies op db)
  refuse_if (is_destructive op && is_receiving db)
      (refused "upload in corso: autorizzazione distruttiva rinviata")
  update_operation (λ o. o.id == op.id && o.state == requested)
      (λ o. record o {
        state = authorized;
        ticket_hash = env.hash ticket;
        authorized_at = unix now;
        lease_generation = lease.generation;
      })
      ticket_refused db

-- AuthorizeOperation; the answer is the operation as it now stands in the table, with the ticket
unfoldable pub authorize_operation :
    Environment → ℕ → String → MaintenanceLease → Instant → Db → Result Db
unfolding reissue grant is_destructive
authorize_operation env id ticket lease now db = do
  validate_lease lease now db
  op ← find_operation id db
  (if op.state == requested && op.revision == db.automation.model_revision
      then grant env op ticket lease now db
      else reissue env op ticket lease db)

-- the ticket and the lease of an authorized operation
unfoldable pub holds_ticket : Environment → Operation → String → MaintenanceLease → Bool
holds_ticket env op ticket lease =
    op.state == authorized
    && not (op.ticket_hash == "")
    && op.ticket_hash == env.hash ticket
    && op.lease_generation == lease.generation

unfoldable pub commit_execution : Environment → Operation → Instant → Db → Result Db
unfolding is_destructive
commit_execution env op now db = do
  ensure (op.revision == db.automation.model_revision && leb op.authorized_at (unix now + 1))
      ticket_refused
  check_policy env op now db
  refuse_if (is_destructive op && is_receiving db)
      (refused "upload in corso: operazione fisica rinviata")
  update_operation (λ o. o.id == op.id && o.state == authorized)
      (λ o. record o { execution_committed = true }) no_rows db

-- ValidateOperation: the last permission before files are touched
unfoldable pub validate_operation :
    Environment → ℕ → String → MaintenanceLease → Instant → Db → Result Db
unfolding commit_execution
validate_operation env id ticket lease now db = do
  validate_lease lease now db
  op ← find_operation id db
  ensure (holds_ticket env op ticket lease) ticket_refused
  (if op.execution_committed then ok db else commit_execution env op now db)
