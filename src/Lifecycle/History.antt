-- ===== src/Lifecycle/History.antt =====
-- What any sequence of transactions does to the deposits.
use onlybackup.Prelude.{String, arith}
use onlybackup.Catalog.Tables.{Db, Environment}
use onlybackup.Store.Lease.{release_maintenance_lease}
use onlybackup.Store.Automation.{
  set_reserve_free, mark_mail_tested, pause_retention, request_retention_resume, set_check_state,
}
use onlybackup.Store.Frame.{open_anomaly_at-KeepsWork}
use onlybackup.Lifecycle.Rows.{Keeps, Keeps-of_eq}
use onlybackup.Lifecycle.Operations.{
  request_quarantine-Keeps, request_purge-Keeps, request_recovery-backups,
  authorize_operation-backups, validate_operation-backups,
}
use onlybackup.Store.Checks.{start_check, fail_check}
use onlybackup.Lifecycle.Monitoring.{plan_check-backups, complete_check-backups}
use onlybackup.Lifecycle.Outcomes.{confirm_operation-Keeps, reconcile_authorized-Keeps}
use onlybackup.Lifecycle.Undo.{
  reset_authorized-Keeps, cancel_quarantine_request-Keeps, revoke-Keeps,
}
use onlybackup.Lifecycle.Deposits.{reserve-Keeps, fail-Keeps}
use onlybackup.Lifecycle.Completion.{complete_deposit-Keeps}
use onlybackup.Model.Types.{Instant}
use onlybackup.Lifecycle.Mail.{
  queue_report-backups, queue_periodic_report-backups, confirm_mail-backups, save_model-backups,
}
use onlybackup.Lifecycle.Other.{
  put_profile-backups, create_key-backups, assign-backups, acquire-backups, resolve_anomaly-backups,
  acknowledge_missing-backups, exclusion-backups, try_clear_block-backups, setup_automation-backups,
  enable_automation-backups, resume_retention-backups, begin_relearn-backups, set_days-backups,
}
use onlybackup.Lifecycle.Steps.{
  Step, reserved, completed, failed, quarantine_requested, purge_requested, recovery_requested,
  authorized, validated, confirmed, reconciled, reset, withdrawn, revoked, profile_put, key_created,
  assigned, lease_acquired, lease_released, anomaly_opened, anomaly_resolved, missing_acknowledged,
  anomaly_excluded, block_cleared, configured, mail_tested, enabled, paused, resume_requested,
  resumed, relearning, checked, days_set, reserve_set, check_started, check_planned,
  check_completed, check_failed, report_queued, periodic_report_queued, mail_confirmed, model_saved,
  Confirms, by_confirmation, by_reconciliation,
}

pub Step-Keeps :
    {P : String → Instant → Type 0} {env : Environment} {db db' : Db} (s : Step env db db')
    → ((id : String) (t : Instant) → Confirms db db' s id t → P id t)
    → Keeps P db.backups db'.backups
unfolding release_maintenance_lease set_reserve_free mark_mail_tested pause_retention
    request_retention_resume set_check_state start_check fail_check
Step-Keeps {P} {env} {db} {db'} (reserved r id now check b h) says =
    reserve-Keeps env r id now check db (b, db') h
Step-Keeps {P} {env} {db} {db'} (completed id now fs h) says =
    complete_deposit-Keeps env id now fs db db' h
Step-Keeps {P} {env} {db} {db'} (failed id reason now h) says =
    fail-Keeps env id reason now db db' h
Step-Keeps {P} {env} {db} {db'} (quarantine_requested id o a r now op h) says =
    request_quarantine-Keeps env id o a r now db (op, db') h
Step-Keeps {P} {env} {db} {db'} (purge_requested id o a r now op h) says =
    request_purge-Keeps env id o a r now db (op, db') h
Step-Keeps {P} {env} {db} {db'} (recovery_requested id a r now op h) says =
    Keeps-of_eq (request_recovery-backups id a r now db (op, db') h)
Step-Keeps {P} {env} {db} {db'} (authorized id t l now h) says =
    Keeps-of_eq (authorize_operation-backups env id t l now db db' h)
Step-Keeps {P} {env} {db} {db'} (validated id t l now h) says =
    Keeps-of_eq (validate_operation-backups env id t l now db db' h)
Step-Keeps {P} {env} {db} {db'} (confirmed id t d e l now h) says =
    confirm_operation-Keeps env id t d e l now db db'
      (λ op found q. says op.backup_id now (by_confirmation op found q h)) h
Step-Keeps {P} {env} {db} {db'} (reconciled id now h) says =
    reconcile_authorized-Keeps id now db db'
      (λ op found q. says op.backup_id now (by_reconciliation op found q h)) h
Step-Keeps {P} {env} {db} {db'} (reset id now h) says = reset_authorized-Keeps id now db db' h
Step-Keeps {P} {env} {db} {db'} (withdrawn id a now h) says =
    cancel_quarantine_request-Keeps id a now db db' h
Step-Keeps {P} {env} {db} {db'} (revoked id now h) says = revoke-Keeps id now db db' h
Step-Keeps {P} {env} {db} {db'} (profile_put p h) says =
    Keeps-of_eq (put_profile-backups p db db' h)
Step-Keeps {P} {env} {db} {db'} (key_created n p id t k h) says =
    Keeps-of_eq (create_key-backups env n p id t db (k, t) db' h)
Step-Keeps {P} {env} {db} {db'} (assigned id p h) says = Keeps-of_eq (assign-backups id p db db' h)
Step-Keeps {P} {env} {db} {db'} (lease_acquired o g now d l h) says =
    Keeps-of_eq (acquire-backups o g now d db l db' h)
Step-Keeps {P} {env} {db} {db'} (lease_released l h) says = Keeps-of_eq (ground arith)
Step-Keeps {P} {env} {db} {db'} (anomaly_opened s k i b d at now opened h) says =
    Keeps-of_eq ((open_anomaly_at-KeepsWork env s k i b d at now db (opened, db') h).backups)
Step-Keeps {P} {env} {db} {db'} (anomaly_resolved s now found h) says =
    Keeps-of_eq (resolve_anomaly-backups s now db found db' h)
Step-Keeps {P} {env} {db} {db'} (missing_acknowledged id now h) says =
    Keeps-of_eq (acknowledge_missing-backups id now db db' h)
Step-Keeps {P} {env} {db} {db'} (anomaly_excluded id f t a r k now e h) says =
    Keeps-of_eq (exclusion-backups id f t a r k now db e db' h)
Step-Keeps {P} {env} {db} {db'} (block_cleared id now c h) says =
    Keeps-of_eq (try_clear_block-backups id now db c db' h)
Step-Keeps {P} {env} {db} {db'} (configured m t mode now h) says =
    Keeps-of_eq (setup_automation-backups env m t mode now db db' h)
Step-Keeps {P} {env} {db} {db'} (mail_tested now h) says = Keeps-of_eq (ground arith)
Step-Keeps {P} {env} {db} {db'} (enabled h) says = Keeps-of_eq (enable_automation-backups db db' h)
Step-Keeps {P} {env} {db} {db'} (paused r h) says = Keeps-of_eq (ground arith)
Step-Keeps {P} {env} {db} {db'} (resume_requested now h) says = Keeps-of_eq (ground arith)
Step-Keeps {P} {env} {db} {db'} (resumed now h) says =
    Keeps-of_eq (resume_retention-backups now db db' h)
Step-Keeps {P} {env} {db} {db'} (relearning h) says = Keeps-of_eq (begin_relearn-backups db db' h)
Step-Keeps {P} {env} {db} {db'} (checked s r now h) says = Keeps-of_eq (ground arith)
Step-Keeps {P} {env} {db} {db'} (days_set k d h) says = Keeps-of_eq (set_days-backups k d db db' h)
Step-Keeps {P} {env} {db} {db'} (reserve_set n h) says = Keeps-of_eq (ground arith)
Step-Keeps {P} {env} {db} {db'} (check_started now c h) says = Keeps-of_eq (ground arith)
Step-Keeps {P} {env} {db} {db'} (check_planned id now c cms h) says =
    Keeps-of_eq (plan_check-backups env id now db db' c cms h)
Step-Keeps {P} {env} {db} {db'} (check_completed id o t s r fs now h) says =
    Keeps-of_eq (complete_check-backups env id o t s r fs now db db' h)
Step-Keeps {P} {env} {db} {db'} (check_failed clip id t now h) says = Keeps-of_eq (ground arith)
Step-Keeps {P} {env} {db} {db'} (report_queued s t b now h) says =
    Keeps-of_eq (queue_report-backups s t b now db db' h)
Step-Keeps {P} {env} {db} {db'} (periodic_report_queued s t b now h) says =
    Keeps-of_eq (queue_periodic_report-backups s t b now db db' h)
Step-Keeps {P} {env} {db} {db'} (mail_confirmed id e v now h) says =
    Keeps-of_eq (confirm_mail-backups id e v now db db' h)
Step-Keeps {P} {env} {db} {db'} (model_saved k r z d e v now h) says =
    Keeps-of_eq (save_model-backups k r z d e v now db db' h)
