-- ===== src/Store/Resolve.antt =====
-- resolveMaintenanceOperationTx and TryClearResolvedMaintenanceBlock of internal/store/retention.go, and
-- canRetryReconciledOperationTx of internal/store/maintenance_retry.go.
use onlybackup.Prelude.{
  ℕ, ◌+◌, ◌-◌, String, Bool, true, false, ◌&&◌, ◌||◌, not, Option, none, some, List, [], ◌∷◌, leb,
  ◌==◌, nat_eq, string_eq, if◌then◌else◌, Result, ok, refused, refuse_if, ◌>>◌, select, update, any,
}
use onlybackup.Model.Types.{
  Instant, unix, Anomaly, Operation, OperationState, requested, authorized, cancelled, quarantine,
  purge, regular, anomaly, state_eq, kind_eq, monitoring_eq,
}
use onlybackup.Model.Text.{concat, decimal}
use onlybackup.Catalog.Tables.{Db, is_blocked}
use onlybackup.Store.Mail.{queue_mail}
use onlybackup.Store.Anomaly.{blocking_anomaly_count, is_recent}

unfoldable pub operation_key : ℕ → String
operation_key id = concat "maintenance-operation:" (decimal id)

unfoldable pub uncertain_key : ℕ → String
uncertain_key id = concat "operation-uncertain:" (decimal id)

-- stable_key IN (?,?) AND kind='maintenance' AND resolved_at=0
unfoldable pub is_open_error : String → String → Anomaly → Bool
is_open_error stable_key uncertain a =
    (a.stable_key == stable_key || a.stable_key == uncertain)
    && a.kind == "maintenance"
    && a.resolved_at == 0

resolve_keys : String → String → String → String → String → Instant → Db → Result Db
resolve_keys stable_key uncertain note subject mail_id now db =
    if any (is_open_error stable_key uncertain) db.anomalies
    then queue_mail mail_id "resolution" subject stable_key now (record db {
      anomalies =
          update (is_open_error stable_key uncertain)
            (λ a. record a {
              resolved_at = unix now;
              resolved_by = "automatic";
              resolution_note = note;
            })
            db.anomalies;
    })
    else ok db

-- resolveMaintenanceOperationTx
unfoldable pub resolve_operation : ℕ → Instant → Bool → Db → Result Db
unfolding resolve_keys
resolve_operation id now true db =
    resolve_keys (operation_key id) (uncertain_key id)
      "operazione completata o annullata; errore operativo chiuso"
      "OnlyBackup: errore di manutenzione risolto"
      (concat "maintenance-resolved:" (concat (decimal id) (concat ":" (decimal (unix now))))) now
      db
resolve_operation id now false db =
    resolve_keys (uncertain_key id) (uncertain_key id) "stato fisico verificato; ripresa possibile"
      "OnlyBackup: esito di manutenzione chiarito"
      (concat "maintenance-clarified:" (concat (decimal id) (concat ":" (decimal (unix now))))) now
      db

abbrev pub is_authorized : Operation → Bool
is_authorized o = o.state == authorized

-- the row whose detail is still the reason of the block, newest first
newest_cause : String → String → String → List Anomaly → Option Anomaly → Option Anomaly
newest_cause stable_key uncertain reason [] found = found
newest_cause stable_key uncertain reason (a ∷ as') found =
    newest_cause stable_key uncertain reason as' (
      if (a.stable_key == stable_key || a.stable_key == uncertain)
        && a.kind == "maintenance"
        && not (a.resolved_at == 0)
        && a.resolved_by == "automatic"
        && concat "anomalia: " a.detail == reason
      then some a
      else found)

-- the conditions under which the block is cleared, with `cause` the resolved anomaly behind it
unfoldable pub may_clear : Anomaly → Instant → Db → Bool
may_clear cause now db =
    let a = db.automation in
    is_blocked a
    && a.monitoring_state == regular
    && not (a.model_revision == 0)
    && is_recent a.last_check_at now
    && blocking_anomaly_count now db == 0
    && not (any is_authorized db.operations)
    && not (any (λ o. o.state == cancelled && leb cause.opened_at o.completed_at) db.operations)
    && not a.manual_paused
    && not a.resume_pending
    && a.deletion_blocked

clear_for : Option Anomaly → Instant → Db → Bool × Db
clear_for none now db = (false, db)
clear_for (some cause) now db =
    if may_clear cause now db
    then (
      true,
      record db {
        automation = record db.automation { deletion_blocked = false; block_reason = "" };
      },
    )
    else (false, db)

-- TryClearResolvedMaintenanceBlock
unfoldable pub try_clear_block : ℕ → Instant → Db → Result (Bool × Db)
unfolding newest_cause clear_for
try_clear_block id now db = do
  refuse_if (id == 0) (refused "operazione di manutenzione non valida")
  ok (
      clear_for
        (newest_cause (operation_key id) (uncertain_key id) db.automation.block_reason db.anomalies
          none)
        now db)

abbrev pub reconciled_source_intact : String
reconciled_source_intact = "autorizzazione ricreata dopo riavvio prima dell operazione fisica"

-- every active key has a reliable model of the current revision and time zone
unfoldable pub has_models : Db → Bool
has_models db =
    let a = db.automation in
    not (
      any
        (λ k.
          not k.revoked
          && not (
              any
                (λ m.
                  m.key_id == k.id
                  && m.revision == a.model_revision
                  && m.reliable
                  && not m.review_required
                  && m.timezone == a.timezone)
                db.models))
        db.keys)

decision_at : OperationState → ℕ → ℕ → ℕ
decision_at authorized authorized_at now = authorized_at
decision_at _ authorized_at now = now

-- the reason of the block is this error, or the uncertainty about the same operation, now clarified
explains : Operation → Anomaly → Db → Bool
explains op a db =
    let reason = db.automation.block_reason in
    reason == concat "anomalia: " a.detail
    || any
        (λ r.
          r.stable_key == uncertain_key op.id
          && r.kind == "maintenance"
          && not (r.resolved_at == 0)
          && r.resolved_by == "automatic"
          && concat "anomalia: " r.detail == reason)
        db.anomalies

retry_with : Operation → Instant → Db → Option Anomaly → Bool
unfolding explains
retry_with op now db none = false
retry_with op now db (some a) =
    leb a.last_seen_at db.automation.last_check_at
    && explains op a db
    && blocking_anomaly_count now db == 1
    && not (any (λ o. is_authorized o && not (o.id == op.id)) db.operations)

-- canRetryReconciledOperationTx
unfoldable pub can_retry : Operation → Instant → Db → Bool
unfolding decision_at retry_with
can_retry op now db =
    let a = db.automation in
    not op.execution_committed
    && op.error == reconciled_source_intact
    && (op.state == requested || op.state == authorized)
    && (op.kind == quarantine || op.kind == purge)
    && a.enabled
    && a.mail_tested
    && a.deletion_blocked
    && not a.manual_paused
    && not a.activation_required
    && not a.resume_pending
    && a.model_revision == op.revision
    && has_models db
    && (a.monitoring_state == regular || a.monitoring_state == anomaly)
    && not (a.last_check_at == 0)
    && leb a.last_check_at (unix now + 1)
    && leb (decision_at op.state op.authorized_at (unix now) - a.last_check_at) 600
    && retry_with op now db (
        select
          (λ r.
            r.stable_key == operation_key op.id
            && r.kind == "maintenance"
            && r.backup_id == op.backup_id
            && r.resolved_at == 0)
          db.anomalies)
