-- ===== src/Store/Frame.antt =====
-- What mails and anomalies leave alone: queue_mail, open_anomaly_at, resolve_operation and the other
-- operations on incidents do not touch deposits, operations, keys or the lease.
use onlybackup.Prelude.{ℕ, String, ◌≡◌, Bool, true, false, ok, arith, >>=-eq-ok}
use onlybackup.Model.Types.{Instant, Anomaly}
use onlybackup.Catalog.Tables.{Db, Environment}
use onlybackup.Store.Mail.{queue_mail}
use onlybackup.Store.Anomaly.{record_excluded, open_new, open_anomaly_at, open_anomaly}
use onlybackup.Store.Resolve.{resolve_operation}

pub record KeepsWork (a b : Db) : Type 0 where
  pub backups : b.backups ≡ a.backups
  pub operations : b.operations ≡ a.operations
  pub keys : b.keys ≡ a.keys
  pub profiles : b.profiles ≡ a.profiles
  pub attempts : b.attempts ≡ a.attempts
  pub key_retention : b.key_retention ≡ a.key_retention
  pub lease : b.lease ≡ a.lease

pub KeepsWork-refl : (a : Db) → KeepsWork a a
KeepsWork-refl a = ground arith

pub KeepsWork-trans : {a b c : Db} → KeepsWork a b → KeepsWork b c → KeepsWork a c
KeepsWork-trans h k = ground arith

pub queue_mail-KeepsWork :
    (i k s t : String) (now : Instant) (db db' : Db)
    → queue_mail i k s t now db ≡ ok db'
    → KeepsWork db db'
unfolding queue_mail
queue_mail-KeepsWork i k s t now db db' h = ground arith

record_excluded-KeepsWork :
    (a : Anomaly) (db db' : Db) → record_excluded a db ≡ ok db' → KeepsWork db db'
unfolding record_excluded
record_excluded-KeepsWork a db db' h = ground arith

open_new-KeepsWork :
    (env : Environment) (a : Anomaly) (event_at now : Instant) (db : Db) (r : Bool × Db)
    → open_new env a event_at now db ≡ ok r
    → KeepsWork db r.1
unfolding open_new queue_mail
open_new-KeepsWork env a event_at now db r h = ground arith

pub open_anomaly_at-KeepsWork :
    (env : Environment) (s k i b d : String) (event_at now : Instant) (db : Db) (r : Bool × Db)
    → open_anomaly_at env s k i b d event_at now db ≡ ok r
    → KeepsWork db r.1
unfolding open_anomaly_at open_new queue_mail record_excluded
open_anomaly_at-KeepsWork env s k i b d event_at now db r h = ground arith

pub resolve_operation-KeepsWork :
    (id : ℕ) (now : Instant) (finished : Bool) (db db' : Db)
    → resolve_operation id now finished db ≡ ok db'
    → KeepsWork db db'
unfolding resolve_operation queue_mail
resolve_operation-KeepsWork id now true db db' h = ground arith
resolve_operation-KeepsWork id now false db db' h = ground arith

pub open_anomaly-KeepsWork :
    (env : Environment) (s k i b d : String) (now : Instant) (db db' : Db)
    → open_anomaly env s k i b d now db ≡ ok db'
    → KeepsWork db db'
unfolding open_anomaly
open_anomaly-KeepsWork env s k i b d now db db' h =
    let (r, o, e) = >>=-eq-ok (open_anomaly_at env s k i b d now now db) _ h in
    let w = open_anomaly_at-KeepsWork env s k i b d now now db r o in ground arith
