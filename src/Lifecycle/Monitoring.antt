-- ===== src/Lifecycle/Monitoring.antt =====
-- The transactions on the checks of the monitoring, and the table of deposits.
use onlybackup.Prelude.{
  ℕ, String, ◌≡◌, ◌∙◌, ok, List, [], ◌∷◌, ◌++◌, ◌&&◌, ◌==◌, nat_eq, any, min, arith, >>=-eq-ok,
  select, from_option, no_rows, refuse_if, constraint,
}
use onlybackup.Model.Types.{Instant, unix, Monitoring}
use onlybackup.Catalog.Tables.{Db, Environment, Check, CheckModel, CheckStatus}
use onlybackup.Store.Complete.{Finding}
use onlybackup.Store.Checks.{is_running, cleanup_checks}
use onlybackup.Store.Checks.Plan.{same_scope, all_scopes, planned_keys, insert_scopes, plan_check}
use onlybackup.Store.Checks.Finish.{record_check, activate, complete_check}
use onlybackup.Store.Checks.Earned.{complete_check-Passed}
use onlybackup.Lifecycle.Completion.{open_findings-KeepsWork}

insert_scopes-backups :
    (cms : List CheckModel) (db db' : Db) → insert_scopes cms db ≡ ok db' → db'.backups ≡ db.backups
unfolding insert_scopes
insert_scopes-backups [] db db' h = ground arith
insert_scopes-backups (cm ∷ cms) db db' h =
    let (u, free, r) =
      >>=-eq-ok
        (refuse_if (any (same_scope cm) db.check_models) (constraint "monitoring_check_models")) _
        h in
    insert_scopes-backups cms (record db { check_models = db.check_models ++ cm ∷ [] }) db' r

pub plan_check-backups :
    (env : Environment) (id : ℕ) (now : Instant) (db db' : Db) (c : Check) (cms : List CheckModel)
    → plan_check env id now db ≡ ok (c, cms, db')
    → db'.backups ≡ db.backups
unfolding plan_check
plan_check-backups env id now db db' c cms h =
    let (r, found, r1) =
      >>=-eq-ok (from_option (select (λ c. c.id == id && is_running c) db.checks) no_rows) _ h in
    let (scopes, planned, r2) =
      >>=-eq-ok (all_scopes env id (min r.started_at (unix now)) db (planned_keys db)) _ r1 in
    let (db1, inserted, r3) = >>=-eq-ok (insert_scopes scopes db) _ r2 in
    let same : db'.backups ≡ db1.backups = ground arith in
    same ∙ insert_scopes-backups scopes db db1 inserted

activate-backups : (db : Db) → (activate db).backups ≡ db.backups
unfolding activate
activate-backups db = ground arith

pub complete_check-backups :
    (env : Environment) (id : ℕ) (outcome : CheckStatus) (summary : String) (state : Monitoring)
    (revision : ℕ) (findings : List Finding) (now : Instant) (db db' : Db)
    → complete_check env id outcome summary state revision findings now db ≡ ok db'
    → db'.backups ≡ db.backups
complete_check-backups env id outcome summary state revision findings now db db' h =
    let p = complete_check-Passed env id outcome summary state revision findings now db db' h in
    let done = p.done in
    rw done (
      unfold cleanup_checks in
      activate-backups (record_check id outcome summary state revision now p.found)
      ∙ (unfold record_check in
          (open_findings-KeepsWork env findings now db p.found p.opened).backups))
