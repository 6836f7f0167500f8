-- ===== src/Lifecycle/Mail.antt =====
-- The transactions on the mail queue and on the models leave the deposits as they are.
use onlybackup.Prelude.{
  ℕ, String, ◌≡◌, Bool, ok, arith, from_option, no_rows, select, >>=-eq-ok, ◌==◌, nat_eq,
}
use onlybackup.Model.Types.{Instant}
use onlybackup.Catalog.Tables.{Db}
use onlybackup.Store.Mail.{queue_mail, queue_report, queue_periodic_report, confirm_mail}
use onlybackup.Store.Learned.{save_model}

pub queue_report-backups :
    (stable_id subject body : String) (now : Instant) (db db' : Db)
    → queue_report stable_id subject body now db ≡ db'
    → db'.backups ≡ db.backups
unfolding queue_report queue_mail
queue_report-backups stable_id subject body now db db' h = ground arith

pub queue_periodic_report-backups :
    (stable_id subject body : String) (now : Instant) (db db' : Db)
    → queue_periodic_report stable_id subject body now db ≡ db'
    → db'.backups ≡ db.backups
unfolding queue_periodic_report queue_mail
queue_periodic_report-backups stable_id subject body now db db' h = ground arith

pub confirm_mail-backups :
    (id : ℕ) (send_error : String) (config_version : ℕ) (now : Instant) (db db' : Db)
    → confirm_mail id send_error config_version now db ≡ ok db'
    → db'.backups ≡ db.backups
unfolding confirm_mail
confirm_mail-backups id send_error config_version now db db' h =
    let (m, found, last) =
      >>=-eq-ok (from_option (select (λ r. r.id == id) db.mail_queue) no_rows) _ h in
    ground arith

pub save_model-backups :
    (key_id : String) (revision : ℕ) (timezone : String) (days : ℕ) (reliable review : Bool)
    (now : Instant) (db db' : Db)
    → save_model key_id revision timezone days reliable review now db ≡ ok db'
    → db'.backups ≡ db.backups
unfolding save_model
save_model-backups key_id revision timezone days reliable review now db db' h = ground arith
