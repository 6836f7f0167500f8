-- ===== src/Lifecycle/Steps.antt =====
-- The transactions of internal/store as steps of the catalogue, in any order and at any times, and what
-- every one of them does to the deposits.
use onlybackup.Prelude.{ℕ, String, ◌≡◌, Bool, List, ok}
use onlybackup.Model.Types.{
  Instant, Monitoring, Backup, Profile, Key, Operation, Origin, MaintenanceLease, Exclusion,
  quarantine,
}
use onlybackup.Catalog.Tables.{Db, Environment, MailSettings, Check, CheckModel, CheckStatus}
use onlybackup.Store.Mail.{queue_report, queue_periodic_report, confirm_mail}
use onlybackup.Store.Learned.{save_model}
use onlybackup.Store.Anomaly.{open_anomaly_at, resolve_anomaly, acknowledge_missing}
use onlybackup.Store.Lease.{acquire_maintenance_lease, release_maintenance_lease}
use onlybackup.Store.Resolve.{try_clear_block}
use onlybackup.Store.Request.{request_quarantine, request_purge, request_recovery}
use onlybackup.Store.Permit.{find_operation, authorize_operation, validate_operation}
use onlybackup.Store.Confirm.{confirm_operation, reconcile_authorized, reset_authorized}
use onlybackup.Store.Cancel.{cancel_quarantine_request, revoke}
use onlybackup.Store.Reserve.{Request, DiskCheck, reserve}
use onlybackup.Store.Automation.{
  Mode, set_reserve_free, set_key_retention_days, setup_automation, mark_mail_tested,
  enable_automation, pause_retention, request_retention_resume, resume_retention, begin_relearn,
  set_check_state,
}
use onlybackup.Store.Exclusion.{create_anomaly_exclusion}
use onlybackup.Store.Failure.{fail}
use onlybackup.Store.Complete.{Finding, complete_deposit}
use onlybackup.Store.Checks.{start_check, fail_check}
use onlybackup.Store.Checks.Plan.{plan_check}
use onlybackup.Store.Checks.Finish.{complete_check}
use onlybackup.Store.Keys.{put_profile, create_key, assign}

-- One committed transaction of internal/store; those that create an archive or migrate an old schema are apart.
pub data Step (env : Environment) : Db → Db → Type 0 where
  reserved :
      {db db' : Db} (r : Request) (id : String) (now : Instant) (check : DiskCheck) (b : Backup)
      → reserve env r id now check db ≡ ok (b, db')
      → Step env db db'
  completed :
      {db db' : Db} (id : String) (now : Instant) (findings : List Finding)
      → complete_deposit env id now findings db ≡ ok db'
      → Step env db db'
  failed :
      {db db' : Db} (id reason : String) (now : Instant)
      → fail env id reason now db ≡ ok db'
      → Step env db db'
  quarantine_requested :
      {db db' : Db} (id : String) (o : Origin) (actor reason : String) (now : Instant)
      (op : Operation)
      → request_quarantine env id o actor reason now db ≡ ok (op, db')
      → Step env db db'
  purge_requested :
      {db db' : Db} (id : String) (o : Origin) (actor reason : String) (now : Instant)
      (op : Operation)
      → request_purge env id o actor reason now db ≡ ok (op, db')
      → Step env db db'
  recovery_requested :
      {db db' : Db} (id actor reason : String) (now : Instant) (op : Operation)
      → request_recovery id actor reason now db ≡ ok (op, db')
      → Step env db db'
  authorized :
      {db db' : Db} (id : ℕ) (ticket : String) (lease : MaintenanceLease) (now : Instant)
      → authorize_operation env id ticket lease now db ≡ ok db'
      → Step env db db'
  validated :
      {db db' : Db} (id : ℕ) (ticket : String) (lease : MaintenanceLease) (now : Instant)
      → validate_operation env id ticket lease now db ≡ ok db'
      → Step env db db'
  confirmed :
      {db db' : Db} (id : ℕ) (ticket : String) (done : Bool) (detail : String)
      (lease : MaintenanceLease) (now : Instant)
      → confirm_operation env id ticket done detail lease now db ≡ ok db'
      → Step env db db'
  reconciled :
      {db db' : Db} (id : ℕ) (now : Instant)
      → reconcile_authorized id now db ≡ ok db'
      → Step env db db'
  reset :
      {db db' : Db} (id : ℕ) (now : Instant) → reset_authorized id now db ≡ ok db' → Step env db db'
  withdrawn :
      {db db' : Db} (id actor : String) (now : Instant)
      → cancel_quarantine_request id actor now db ≡ ok db'
      → Step env db db'
  revoked :
      {db db' : Db} (id : String) (now : Instant) → revoke id now db ≡ ok db' → Step env db db'
  profile_put : {db db' : Db} (p : Profile) → put_profile p db ≡ ok db' → Step env db db'
  key_created :
      {db db' : Db} (name profile id token : String) (k : Key)
      → create_key env name profile id token db ≡ ok ((k, token), db')
      → Step env db db'
  assigned : {db db' : Db} (id profile : String) → assign id profile db ≡ ok db' → Step env db db'
  lease_acquired :
      {db db' : Db} (owner : String) (generation : ℕ) (now : Instant) (duration : ℕ)
      (l : MaintenanceLease)
      → acquire_maintenance_lease owner generation now duration db ≡ ok (l, db')
      → Step env db db'
  lease_released :
      {db db' : Db} (l : MaintenanceLease) → release_maintenance_lease l db ≡ db' → Step env db db'
  anomaly_opened :
      {db db' : Db} (s k i b d : String) (at now : Instant) (opened : Bool)
      → open_anomaly_at env s k i b d at now db ≡ ok (opened, db')
      → Step env db db'
  anomaly_resolved :
      {db db' : Db} (s : String) (now : Instant) (found : Bool)
      → resolve_anomaly s now db ≡ ok (found, db')
      → Step env db db'
  missing_acknowledged :
      {db db' : Db} (id : ℕ) (now : Instant)
      → acknowledge_missing id now db ≡ ok db'
      → Step env db db'
  anomaly_excluded :
      {db db' : Db} (id : ℕ) (from to : Instant) (actor reason : String) (kinds : List String)
      (now : Instant) (e : Exclusion)
      → create_anomaly_exclusion id from to actor reason kinds now db ≡ ok (e, db')
      → Step env db db'
  block_cleared :
      {db db' : Db} (id : ℕ) (now : Instant) (cleared : Bool)
      → try_clear_block id now db ≡ ok (cleared, db')
      → Step env db db'
  configured :
      {db db' : Db} (settings : MailSettings) (timezone : String) (mode : Mode) (now : Instant)
      → setup_automation env settings timezone mode now db ≡ ok db'
      → Step env db db'
  mail_tested : {db db' : Db} (now : Instant) → mark_mail_tested now db ≡ db' → Step env db db'
  enabled : {db db' : Db} → enable_automation db ≡ ok db' → Step env db db'
  paused : {db db' : Db} (reason : String) → pause_retention reason db ≡ db' → Step env db db'
  resume_requested :
      {db db' : Db} (now : Instant) → request_retention_resume now db ≡ db' → Step env db db'
  resumed : {db db' : Db} (now : Instant) → resume_retention now db ≡ ok db' → Step env db db'
  relearning : {db db' : Db} → begin_relearn db ≡ ok db' → Step env db db'
  checked :
      {db db' : Db} (state : Monitoring) (revision : ℕ) (now : Instant)
      → set_check_state state revision now db ≡ db'
      → Step env db db'
  days_set :
      {db db' : Db} (key_id : String) (days : ℕ)
      → set_key_retention_days key_id days db ≡ ok db'
      → Step env db db'
  reserve_set : {db db' : Db} (bytes : ℕ) → set_reserve_free bytes db ≡ db' → Step env db db'
  check_started :
      {db db' : Db} (now : Instant) (c : Check) → start_check now db ≡ (c, db') → Step env db db'
  check_planned :
      {db db' : Db} (id : ℕ) (now : Instant) (c : Check) (cms : List CheckModel)
      → plan_check env id now db ≡ ok (c, cms, db')
      → Step env db db'
  check_completed :
      {db db' : Db} (id : ℕ) (outcome : CheckStatus) (summary : String) (state : Monitoring)
      (revision : ℕ) (findings : List Finding) (now : Instant)
      → complete_check env id outcome summary state revision findings now db ≡ ok db'
      → Step env db db'
  check_failed :
      {db db' : Db} (clip : String → String) (id : ℕ) (summary : String) (now : Instant)
      → fail_check clip id summary now db ≡ db'
      → Step env db db'
  report_queued :
      {db db' : Db} (stable_id subject body : String) (now : Instant)
      → queue_report stable_id subject body now db ≡ db'
      → Step env db db'
  periodic_report_queued :
      {db db' : Db} (stable_id subject body : String) (now : Instant)
      → queue_periodic_report stable_id subject body now db ≡ db'
      → Step env db db'
  mail_confirmed :
      {db db' : Db} (id : ℕ) (send_error : String) (config_version : ℕ) (now : Instant)
      → confirm_mail id send_error config_version now db ≡ ok db'
      → Step env db db'
  model_saved :
      {db db' : Db} (key_id : String) (revision : ℕ) (timezone : String) (days : ℕ)
      (reliable review : Bool) (now : Instant)
      → save_model key_id revision timezone days reliable review now db ≡ ok db'
      → Step env db db'

-- The transactions that confirm a quarantine, with the deposit and the instant.
pub data Confirms {env : Environment}
    : (db db' : Db) → Step env db db' → String → Instant → Type 0 where
  by_confirmation :
      {db db' : Db} {id : ℕ} {ticket : String} {done : Bool} {detail : String}
      {lease : MaintenanceLease} {now : Instant} (op : Operation)
      → find_operation id db ≡ ok op
      → op.kind ≡ quarantine
      → (h : confirm_operation env id ticket done detail lease now db ≡ ok db')
      → Confirms db db' (confirmed id ticket done detail lease now h) op.backup_id now
  by_reconciliation :
      {db db' : Db} {id : ℕ} {now : Instant} (op : Operation)
      → find_operation id db ≡ ok op
      → op.kind ≡ quarantine
      → (h : reconcile_authorized id now db ≡ ok db')
      → Confirms db db' (reconciled id now h) op.backup_id now
