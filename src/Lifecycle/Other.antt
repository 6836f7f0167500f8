-- ===== src/Lifecycle/Other.antt =====
-- The transactions that leave the table of deposits as it is.
use onlybackup.Prelude.{ℕ, String, ◌≡◌, Bool, List, ok, arith}
use onlybackup.Model.Types.{Instant, Profile, Key, MaintenanceLease, Exclusion}
use onlybackup.Catalog.Tables.{Db, Environment, MailSettings}
use onlybackup.Store.Mail.{queue_mail}
use onlybackup.Store.Anomaly.{resolve_anomaly, acknowledge_missing}
use onlybackup.Store.Lease.{acquire_maintenance_lease}
use onlybackup.Store.Resolve.{try_clear_block}
use onlybackup.Store.Automation.{
  Mode, set_key_retention_days, setup_automation, enable_automation, resume_retention,
  begin_relearn,
}
use onlybackup.Store.Exclusion.{create_anomaly_exclusion}
use onlybackup.Store.Keys.{put_profile, create_key, assign}

pub put_profile-backups :
    (p : Profile) (db db' : Db) → put_profile p db ≡ ok db' → db'.backups ≡ db.backups
unfolding put_profile
put_profile-backups p db db' h = ground arith

pub create_key-backups :
    (env : Environment) (name profile id token : String) (db : Db) (k : Key × String) (db' : Db)
    → create_key env name profile id token db ≡ ok (k, db')
    → db'.backups ≡ db.backups
unfolding create_key
create_key-backups env name profile id token db k db' h = ground arith

pub assign-backups :
    (id profile : String) (db db' : Db) → assign id profile db ≡ ok db' → db'.backups ≡ db.backups
unfolding assign
assign-backups id profile db db' h = ground arith

pub acquire-backups :
    (owner : String) (generation : ℕ) (now : Instant) (duration : ℕ) (db : Db)
    (l : MaintenanceLease) (db' : Db)
    → acquire_maintenance_lease owner generation now duration db ≡ ok (l, db')
    → db'.backups ≡ db.backups
unfolding acquire_maintenance_lease
acquire-backups owner generation now duration db l db' h = ground arith

pub resolve_anomaly-backups :
    (s : String) (now : Instant) (db : Db) (found : Bool) (db' : Db)
    → resolve_anomaly s now db ≡ ok (found, db')
    → db'.backups ≡ db.backups
unfolding resolve_anomaly queue_mail
resolve_anomaly-backups s now db found db' h = ground arith

pub acknowledge_missing-backups :
    (id : ℕ) (now : Instant) (db db' : Db)
    → acknowledge_missing id now db ≡ ok db'
    → db'.backups ≡ db.backups
unfolding acknowledge_missing queue_mail
acknowledge_missing-backups id now db db' h = ground arith

pub exclusion-backups :
    (id : ℕ) (from to : Instant) (actor reason : String) (kinds : List String) (now : Instant)
    (db : Db) (e : Exclusion) (db' : Db)
    → create_anomaly_exclusion id from to actor reason kinds now db ≡ ok (e, db')
    → db'.backups ≡ db.backups
unfolding create_anomaly_exclusion
exclusion-backups id from to actor reason kinds now db e db' h = ground arith

pub try_clear_block-backups :
    (id : ℕ) (now : Instant) (db : Db) (cleared : Bool) (db' : Db)
    → try_clear_block id now db ≡ ok (cleared, db')
    → db'.backups ≡ db.backups
unfolding try_clear_block
try_clear_block-backups id now db cleared db' h = ground arith

pub setup_automation-backups :
    (env : Environment) (m : MailSettings) (timezone : String) (mode : Mode) (now : Instant)
    (db db' : Db)
    → setup_automation env m timezone mode now db ≡ ok db'
    → db'.backups ≡ db.backups
unfolding setup_automation
setup_automation-backups env m timezone mode now db db' h = ground arith

pub enable_automation-backups :
    (db db' : Db) → enable_automation db ≡ ok db' → db'.backups ≡ db.backups
unfolding enable_automation
enable_automation-backups db db' h = ground arith

pub resume_retention-backups :
    (now : Instant) (db db' : Db) → resume_retention now db ≡ ok db' → db'.backups ≡ db.backups
unfolding resume_retention
resume_retention-backups now db db' h = ground arith

pub begin_relearn-backups : (db db' : Db) → begin_relearn db ≡ ok db' → db'.backups ≡ db.backups
unfolding begin_relearn
begin_relearn-backups db db' h = ground arith

pub set_days-backups :
    (key_id : String) (days : ℕ) (db db' : Db)
    → set_key_retention_days key_id days db ≡ ok db'
    → db'.backups ≡ db.backups
unfolding set_key_retention_days
set_days-backups key_id days db db' h = ground arith
