-- ===== src/Lifecycle/Outcomes.antt =====
-- The same for the operations that end or undo an operation, for revocations and for deposits.
use onlybackup.Prelude.{
  ℕ, String, ◌≡◌, ◌∙◌, Bool, true, false, ◌&&◌, ◌==◌, string_eq, arith, Result, Error, ok,
  if◌then◌else◌, >>=-eq-ok, ◌>>=◌, ensure, ticket_refused,
}
use onlybackup.Model.Types.{
  Instant, Operation, MaintenanceLease, status_eq, state_eq, authorized, confirmed, quarantine,
}
use onlybackup.Catalog.Tables.{Db, Environment}
use onlybackup.Store.Resolve.{resolve_operation}
use onlybackup.Store.Rules.{update_operation}
use onlybackup.Store.Lease.{validate_lease}
use onlybackup.Store.Permit.{find_operation}
use onlybackup.Store.Confirm.{
  confirm_operation, reconcile_authorized, apply_result, finish, report_failure, confirm_done,
  confirm_again, confirm_first, mark_confirmed,
}
use onlybackup.Store.Frame.{resolve_operation-KeepsWork, open_anomaly-KeepsWork}
use onlybackup.Lifecycle.Rows.{Keeps, Keeps-of_eq}
use onlybackup.Lifecycle.Updates.{apply_result-Keeps}

pub update_operation-backups :
    (p : Operation → Bool) (f : Operation → Operation) (e : Error) (db db' : Db)
    → update_operation p f e db ≡ ok db'
    → db'.backups ≡ db.backups
unfolding update_operation
update_operation-backups p f e db db' h = ground arith

-- an update of operations, then the closing of the incidents of one
pub marked-backups :
    (m : Result Db) (id : ℕ) (now : Instant) (finished : Bool) (db db' : Db)
    → ((db1 : Db) → m ≡ ok db1 → db1.backups ≡ db.backups)
    → (m >>= λ db1. resolve_operation id now finished db1) ≡ ok db'
    → db'.backups ≡ db.backups
marked-backups m id now finished db db' keeps h =
    let (db1, u, r) = >>=-eq-ok m (λ d. resolve_operation id now finished d) h in
    (resolve_operation-KeepsWork id now finished db1 db' r).backups ∙ keeps db1 u

pub finish-backups :
    (op : Operation) (e : String) (now : Instant) (db db' : Db)
    → finish op e now db ≡ ok db'
    → db'.backups ≡ db.backups
unfolding finish
finish-backups op e now db db' h =
    marked-backups (mark_confirmed op e now db) op.id now true db db'
      (λ db1 u. update_operation-backups _ _ _ db db1 u) h

confirm_done-Keeps :
    {P : String → Instant → Type 0} (op : Operation) (now : Instant) (db db' : Db)
    → (op.kind ≡ quarantine → P op.backup_id now)
    → confirm_done op now db ≡ ok db'
    → Keeps P db.backups db'.backups
unfolding confirm_done
confirm_done-Keeps op now db db' isolates h =
    let (db1, u, r) =
      >>=-eq-ok (apply_result op.kind op.backup_id now _ db) (λ d. finish op "" now d) h in
    rw (finish-backups op "" now db1 db' r)
      (apply_result-Keeps op.kind op.backup_id now _ db db1 isolates u)

report_failure-Keeps :
    {P : String → Instant → Type 0} (env : Environment) (op : Operation) (detail : String)
    (now : Instant) (db db' : Db)
    → report_failure env op detail now db ≡ ok db'
    → Keeps P db.backups db'.backups
unfolding report_failure
report_failure-Keeps env op detail now db db' h =
    let w = open_anomaly-KeepsWork env _ _ _ _ _ now _ db' h in
    Keeps-of_eq (w.backups ∙ ground arith)

confirm_first-Keeps :
    {P : String → Instant → Type 0} (env : Environment) (op : Operation) (ticket : String)
    (done : Bool) (detail : String) (lease : MaintenanceLease) (now : Instant) (db db' : Db)
    → (op.kind ≡ quarantine → P op.backup_id now)
    → confirm_first env op ticket done detail lease now db ≡ ok db'
    → Keeps P db.backups db'.backups
unfolding confirm_first
confirm_first-Keeps env op ticket true detail lease now db db' isolates h =
    confirm_done-Keeps op now db db' isolates (ground arith)
confirm_first-Keeps env op ticket false detail lease now db db' isolates h =
    report_failure-Keeps env op detail now db db' (ground arith)

confirm_again-backups :
    (env : Environment) (op : Operation) (ticket : String) (lease : MaintenanceLease) (db db' : Db)
    → confirm_again env op ticket lease db ≡ ok db'
    → db'.backups ≡ db.backups
unfolding confirm_again
confirm_again-backups env op ticket lease db db' h = ground arith

confirm_either-Keeps :
    {P : String → Instant → Type 0} (again : Bool) (env : Environment) (op : Operation)
    (ticket : String) (done : Bool) (detail : String) (lease : MaintenanceLease) (now : Instant)
    (db db' : Db)
    → (op.kind ≡ quarantine → P op.backup_id now)
    → (if again
        then confirm_again env op ticket lease db
        else confirm_first env op ticket done detail lease now db)
      ≡ ok db'
    → Keeps P db.backups db'.backups
confirm_either-Keeps true env op ticket done detail lease now db db' isolates h =
    Keeps-of_eq (confirm_again-backups env op ticket lease db db' h)
confirm_either-Keeps false env op ticket done detail lease now db db' isolates h =
    confirm_first-Keeps env op ticket done detail lease now db db' isolates h

pub confirm_operation-Keeps :
    {P : String → Instant → Type 0} (env : Environment) (id : ℕ) (ticket : String) (done : Bool)
    (detail : String) (lease : MaintenanceLease) (now : Instant) (db db' : Db)
    → ((op : Operation) → find_operation id db ≡ ok op → op.kind ≡ quarantine → P op.backup_id now)
    → confirm_operation env id ticket done detail lease now db ≡ ok db'
    → Keeps P db.backups db'.backups
unfolding confirm_operation
confirm_operation-Keeps env id ticket done detail lease now db db' isolates h =
    let (u, valid, rest) = >>=-eq-ok (validate_lease lease now db) _ h in
    let (op, found, last) = >>=-eq-ok (find_operation id db) _ rest in
    confirm_either-Keeps (op.state == confirmed && done) env op ticket done detail lease now db db'
      (isolates op found) last

pub reconcile_authorized-Keeps :
    {P : String → Instant → Type 0} (id : ℕ) (now : Instant) (db db' : Db)
    → ((op : Operation) → find_operation id db ≡ ok op → op.kind ≡ quarantine → P op.backup_id now)
    → reconcile_authorized id now db ≡ ok db'
    → Keeps P db.backups db'.backups
unfolding reconcile_authorized
reconcile_authorized-Keeps id now db db' isolates h =
    let (op, found, rest) = >>=-eq-ok (find_operation id db) _ h in
    let (u, state, rest') = >>=-eq-ok (ensure (op.state == authorized) ticket_refused) _ rest in
    let (db1, done, last) =
      >>=-eq-ok (apply_result op.kind op.backup_id now _ db)
        (λ d. finish op "riconciliata dopo riavvio" now d) rest' in
    rw (finish-backups op _ now db1 db' last)
      (apply_result-Keeps op.kind op.backup_id now _ db db1 (isolates op found) done)
