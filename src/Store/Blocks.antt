-- ===== src/Store/Blocks.antt =====
-- What suspends the removal of deposits, and what it takes to resume it.
use onlybackup.Prelude.{String, ◌≡◌, ◌≢◌, true, false, nat_eq, ok, arith, any}
use onlybackup.Model.Types.{Instant, Origin, Operation, regular}
use onlybackup.Policy.Warning.{is_quarantine_margin_warning}
use onlybackup.Catalog.Tables.{Db, Environment, MailSettings, is_blocked}
use onlybackup.Store.Mail.{queue_mail}
use onlybackup.Store.Anomaly.{
  is_excludable, open_new, open_anomaly_at, anomaly_blocks, block_for_anomaly,
  blocking_anomaly_count, is_recent,
}
use onlybackup.Store.Resolve.{is_authorized}
use onlybackup.Store.Automation.{
  Mode, setup_automation, configured, pause_retention, begin_relearn, resume_retention, resumed,
}
use onlybackup.Store.Request.{request_quarantine, request_purge}
use onlybackup.Store.Copies.{request_quarantine-IsGuarded}
use onlybackup.Store.Purges.{request_purge-IsGuarded}

-- No request for quarantine or purge is granted.
abbrev pub IsSuspended : Environment → Db → Type 0
IsSuspended env db =
    (id : String) (o : Origin) (actor reason : String) (now : Instant) (r : Operation × Db)
    → (request_quarantine env id o actor reason now db ≢ ok r)
      × (request_purge env id o actor reason now db ≢ ok r)

blocked-IsSuspended :
    (env : Environment) (db : Db) → is_blocked db.automation ≡ true → IsSuspended env db
blocked-IsSuspended env db h id o actor reason now r = (
  λ q.
      let free = (request_quarantine-IsGuarded env id o actor reason now db r q).free in
      cc (free, h),
  λ q. let free = (request_purge-IsGuarded env id o actor reason now db r q).free in cc (free, h),
)

-- After a suspension no request for quarantine or purge is granted.
pub pause_retention-IsSuspended :
    (env : Environment) (reason : String) (db : Db) → IsSuspended env (pause_retention reason db)
unfolding pause_retention
pause_retention-IsSuspended env reason db =
    blocked-IsSuspended env (pause_retention reason db) (unfold is_blocked in ground arith)

-- After a configuration of the automation no request for quarantine or purge is granted.
pub setup_automation-IsSuspended :
    (env : Environment) (m : MailSettings) (timezone : String) (mode : Mode) (now : Instant)
    (db db' : Db)
    → setup_automation env m timezone mode now db ≡ ok db'
    → IsSuspended env db'
unfolding setup_automation configured is_blocked
setup_automation-IsSuspended env m timezone mode now db db' h =
    blocked-IsSuspended env db' (ground arith)

-- After a new learning of the models is begun, no request for quarantine or purge is granted.
pub begin_relearn-IsSuspended :
    (env : Environment) (db db' : Db) → begin_relearn db ≡ ok db' → IsSuspended env db'
unfolding begin_relearn is_blocked
begin_relearn-IsSuspended env db db' h = blocked-IsSuspended env db' (ground arith)

-- An anomaly that is newly opened, and whose kind cannot be excluded, suspends the removal of deposits, unless
-- it is the warning about the margin of the quarantine.
pub open_anomaly_at-IsSuspended :
    (env : Environment) (key kind key_id backup_id detail : String) (at now : Instant) (db db' : Db)
    → open_anomaly_at env key kind key_id backup_id detail at now db ≡ ok (true, db')
    → is_excludable kind ≡ false
    → is_quarantine_margin_warning kind key ≡ false
    → IsSuspended env db'
open_anomaly_at-IsSuspended env key kind key_id backup_id detail at now db db' h x w =
    blocked-IsSuspended env db' (
      unfold open_anomaly_at open_new queue_mail anomaly_blocks block_for_anomaly is_blocked
        is_excludable in
      ground arith)

-- A resumption is granted only to an enabled automation with a tested mail, a model, a recent check, a regular
-- monitoring, no blocking anomaly and no authorized operation; and afterwards nothing blocks requests.
pub resume_retention-IsSafe :
    (now : Instant) (db db' : Db)
    → resume_retention now db ≡ ok db'
    → (is_blocked db'.automation ≡ false)
      × (blocking_anomaly_count now db' ≡ 0)
      × (any is_authorized db'.operations ≡ false)
      × (db'.automation.model_revision ≢ 0)
      × (is_recent db'.automation.last_check_at now ≡ true)
      × (db'.automation.monitoring_state ≡ regular)
unfolding resume_retention resumed is_blocked blocking_anomaly_count
resume_retention-IsSafe now db db' h =
    (ground arith, ground arith, ground arith, ground arith, ground arith, ground arith)
