-- ===== src/Store/Confirm.antt =====
-- ConfirmOperation, ReconcileAuthorized, purgeNotBefore and ResetAuthorized of
-- internal/store/retention.go.
use onlybackup.Prelude.{
  ℕ, ◌+◌, ◌*◌, ◌%◌, String, Bool, true, false, ◌&&◌, ◌||◌, not, ◌==◌, nat_eq, string_eq,
  if◌then◌else◌, Result, Error, ok, err, refused, ticket_refused, no_rows, ensure, ◌>>=◌, ◌>>◌, any,
  update,
}
use onlybackup.Model.Types.{
  Instant, unix, second, hour, complete, deleting, quarantined, purging, deleted, Kind, quarantine,
  purge, recover, Operation, requested, authorized, confirmed, cancelled, MaintenanceLease,
  state_eq, kind_eq,
}
use onlybackup.Model.Text.{concat}
use onlybackup.Catalog.Tables.{Db, Environment}
use onlybackup.Store.Anomaly.{is_open, open_anomaly}
use onlybackup.Store.Lease.{validate_lease}
use onlybackup.Store.Resolve.{operation_key, resolve_operation, reconciled_source_intact}
use onlybackup.Store.Rules.{find_backup, find_key, transition, update_operation}
use onlybackup.Store.Permit.{find_operation, holds_ticket}

-- quarantineMinimum
abbrev pub quarantine_minimum : Instant
quarantine_minimum = 48 * hour

unfoldable pub purge_not_before : Instant → ℕ
purge_not_before now =
    let value = unix (now + quarantine_minimum) in if now % second == 0 then value else value + 1

-- the change of the backup that each kind of operation confirms
unfoldable pub apply_result : Kind → String → Instant → Error → Db → Result Db
apply_result quarantine id now e db =
    transition id deleting
      (λ b. record b {
        status = quarantined;
        quarantined_at = unix now;
        purge_not_before = purge_not_before now;
      })
      e db
apply_result purge id now e db =
    transition id purging (λ b. record b { status = deleted; purged_at = unix now }) e db
apply_result recover id now e db =
    transition id quarantined
      (λ b. record b { status = complete; quarantined_at = 0; purge_not_before = 0 }) e db

unfoldable pub mark_confirmed : Operation → String → Instant → Db → Result Db
mark_confirmed op error now =
    update_operation (λ o. o.id == op.id && o.state == authorized)
      (λ o. record o { state = confirmed; completed_at = unix now; error = error }) ticket_refused

unfoldable pub finish : Operation → String → Instant → Db → Result Db
unfolding mark_confirmed
finish op error now db = do
  db' ← mark_confirmed op error now db
  resolve_operation op.id now true db'

-- the reason of the block follows the detail of the error only if it is this error's
refresh_reason : String → String → String → Db → Db
refresh_reason key detail backup_id db =
    let a = db.automation in
    if a.deletion_blocked
      && any
          (λ r.
            is_open key r
            && r.kind == "maintenance"
            && r.backup_id == backup_id
            && a.block_reason == concat "anomalia: " r.detail)
          db.anomalies
    then record db { automation = record a { block_reason = concat "anomalia: " detail } }
    else db

-- a transport cannot write the marker of an intact source
operation_detail : String → String
operation_detail detail =
    if detail == reconciled_source_intact then concat "errore operativo: " detail else detail

unfoldable pub report_failure : Environment → Operation → String → Instant → Db → Result Db
unfolding refresh_reason operation_detail
report_failure env op detail now db =
    let key = operation_key op.id in
    let failure = concat "errore operazione di manutenzione: " detail in
    let noted = record db {
      operations =
          update (λ o. o.id == op.id) (λ o. record o { error = operation_detail detail })
            db.operations;
    } in
    open_anomaly env key "maintenance" "" op.backup_id failure now
      (refresh_reason key failure op.backup_id noted)

-- a repeated confirmation needs the same ticket and lease, and changes nothing
unfoldable pub confirm_again : Environment → Operation → String → MaintenanceLease → Db → Result Db
confirm_again env op ticket lease db =
    if not (op.ticket_hash == "")
      && op.ticket_hash == env.hash ticket
      && op.lease_generation == lease.generation
    then ok db
    else err ticket_refused

unfoldable pub confirm_done : Operation → Instant → Db → Result Db
unfolding finish
confirm_done op now db = do
  db' ←
      apply_result op.kind op.backup_id now
        (refused "conferma rifiutata: stato del backup non coerente con l'operazione") db
  finish op "" now db'

unfoldable pub confirm_first :
    Environment → Operation → String → Bool → String → MaintenanceLease → Instant → Db → Result Db
unfolding report_failure confirm_done
confirm_first env op ticket done detail lease now db = do
  ensure (holds_ticket env op ticket lease) ticket_refused
  (if done then confirm_done op now db else report_failure env op detail now db)

-- ConfirmOperation
unfoldable pub confirm_operation :
    Environment → ℕ → String → Bool → String → MaintenanceLease → Instant → Db → Result Db
unfolding confirm_again confirm_first
confirm_operation env id ticket done detail lease now db = do
  validate_lease lease now db
  op ← find_operation id db
  (if op.state == confirmed && done
      then confirm_again env op ticket lease db
      else confirm_first env op ticket done detail lease now db)

-- ReconcileAuthorized
unfoldable pub reconcile_authorized : ℕ → Instant → Db → Result Db
unfolding finish
reconcile_authorized id now db = do
  op ← find_operation id db
  ensure (op.state == authorized) ticket_refused
  db' ←
      apply_result op.kind op.backup_id now
        (refused "riconciliazione rifiutata: stato del backup non coerente") db
  finish op "riconciliata dopo riavvio" now db'

-- the status to which a cancelled operation returns its backup
unfoldable pub restore : Kind → String → Db → Result Db
restore quarantine id db = transition id deleting (λ b. record b { status = complete }) no_rows db
restore purge id db = transition id purging (λ b. record b { status = quarantined }) no_rows db
restore recover id db = ok db

-- the source is intact: the final permission stays, and only the lost ticket is forgotten
unfoldable pub drop_ticket : Operation → Db → Result Db
drop_ticket op =
    update_operation (λ o. o.id == op.id && o.state == authorized && o.execution_committed)
      (λ o. record o { ticket_hash = ""; lease_generation = 0 }) no_rows

unfoldable pub forget_ticket : Operation → Instant → Db → Result Db
unfolding drop_ticket
forget_ticket op now db = do db' ← drop_ticket op db; resolve_operation op.id now false db'

abbrev pub revoked_note : String
revoked_note = "annullata automaticamente: chiave revocata"

unfoldable pub mark_cancelled : Operation → Instant → Db → Result Db
mark_cancelled op now =
    update_operation (λ o. o.id == op.id && o.state == authorized)
      (λ o. record o {
        state = cancelled;
        ticket_hash = "";
        lease_generation = 0;
        completed_at = unix now;
        error = revoked_note;
      })
      no_rows

unfoldable pub cancel_authorized : Operation → Instant → Db → Result Db
unfolding mark_cancelled
cancel_authorized op now db = do
  db' ← restore op.kind op.backup_id db
  db'' ← mark_cancelled op now db'
  resolve_operation op.id now true db''

unfoldable pub mark_requested : Operation → Db → Result Db
mark_requested op =
    update_operation (λ o. o.id == op.id && o.state == authorized)
      (λ o. record o {
        state = requested;
        ticket_hash = "";
        lease_generation = 0;
        authorized_at = 0;
        error = reconciled_source_intact;
      })
      no_rows

unfoldable pub request_again : Operation → Instant → Db → Result Db
unfolding mark_requested
request_again op now db = do db' ← mark_requested op db; resolve_operation op.id now false db'

-- ResetAuthorized
unfoldable pub reset_authorized : ℕ → Instant → Db → Result Db
unfolding forget_ticket cancel_authorized request_again
reset_authorized id now db = do
  op ← find_operation id db
  b ← find_backup op.backup_id db
  k ← find_key b.key_id db
  ensure (op.state == authorized) ticket_refused
  (if op.execution_committed
      then forget_ticket op now db
      else if k.revoked && (op.kind == quarantine || op.kind == purge)
      then cancel_authorized op now db
      else request_again op now db)
