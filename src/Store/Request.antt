-- ===== src/Store/Request.antt =====
-- RequestQuarantine, RequestPurge and RequestRecovery of internal/store/retention.go.
use onlybackup.Prelude.{
  String, Bool, true, false, ◌||◌, not, ltb, leb, ◌==◌, nat_eq, string_eq, Result, refused,
  retention_blocked, current_day, last_copy, too_early, from_option, ensure, refuse_if, ◌>>=◌, ◌>>◌,
  count,
}
use onlybackup.Model.Types.{
  Instant, unix, complete, deleting, quarantined, purging, Operation, Origin, manual, automatic,
  reconcile, quarantine, purge, recover, status_eq,
}
use onlybackup.Model.Text.{is_blank}
use onlybackup.Model.Hex.{valid_id}
use onlybackup.Policy.Protection.{backup_time}
use onlybackup.Catalog.Tables.{Db, Environment, is_blocked}
use onlybackup.Store.Rules.{
  find_backup, find_key, is_missing, is_copy, is_stable_copy, check_retention_minimum, transition,
  insert_operation,
}

abbrev pub is_reconcile : Origin → Bool
is_reconcile reconcile = true
is_reconcile manual = false
is_reconcile automatic = false

-- RequestQuarantine. The three origins are those that the schema allows.
unfoldable pub request_quarantine :
    Environment → String → Origin → String → String → Instant → Db → Result (Operation × Db)
request_quarantine env backup_id origin actor reason now db = do
  refuse_if (not (valid_id backup_id) || is_reconcile origin || is_blank actor)
      (refused "richiesta retention non valida")
  refuse_if (is_blocked db.automation) retention_blocked
  loc ←
      from_option (env.load_location db.automation.timezone)
        (refused "fuso dell'automazione non valido")
  b ← find_backup backup_id db
  k ← find_key b.key_id db
  refuse_if k.revoked (refused "i backup di una chiave revocata non sono selezionabili")
  ensure (b.status == complete) (refused "backup non selezionabile nello stato")
  refuse_if (is_missing db.anomalies backup_id)
      (refused "backup riconosciuto come definitivamente mancante")
  refuse_if (loc.day (backup_time b) == loc.day now) current_day
  refuse_if (leb (count (is_copy b.key_id db.anomalies) db.backups) 1) last_copy
  check_retention_minimum env backup_id now db
  db' ←
      transition backup_id complete (λ r. record r { status = deleting })
        (refused "stato backup cambiato durante la richiesta") db
  insert_operation backup_id quarantine origin actor reason now db'

-- RequestPurge
unfoldable pub request_purge :
    Environment → String → Origin → String → String → Instant → Db → Result (Operation × Db)
request_purge env backup_id origin actor reason now db = do
  refuse_if (not (valid_id backup_id) || is_blank actor) (refused "richiesta purge non valida")
  refuse_if (is_blocked db.automation) retention_blocked
  b ← find_backup backup_id db
  k ← find_key b.key_id db
  refuse_if k.revoked (refused "i backup di una chiave revocata non sono eliminabili")
  ensure (b.status == quarantined) (refused "backup non in quarantena")
  refuse_if (is_missing db.anomalies backup_id)
      (refused "backup riconosciuto come definitivamente mancante")
  check_retention_minimum env backup_id now db
  refuse_if (b.purge_not_before == 0 || ltb (unix now) b.purge_not_before) too_early
  refuse_if (leb (count (is_stable_copy b.key_id db.anomalies) db.backups) 1) last_copy
  db' ←
      transition backup_id quarantined (λ r. record r { status = purging })
        (refused "stato backup cambiato durante la richiesta") db
  insert_operation backup_id purge origin actor reason now db'

-- RequestRecovery
unfoldable pub request_recovery : String → String → String → Instant → Db → Result (Operation × Db)
request_recovery backup_id actor reason now db = do
  refuse_if (not (valid_id backup_id) || is_blank actor) (refused "richiesta recupero non valida")
  b ← find_backup backup_id db
  ensure (b.status == quarantined) (refused "solo un backup in quarantena puo essere recuperato")
  insert_operation backup_id recover manual actor reason now db
