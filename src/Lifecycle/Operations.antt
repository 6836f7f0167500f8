-- ===== src/Lifecycle/Operations.antt =====
-- The operations of internal/store and the edges of the state machine of a deposit.
use onlybackup.Prelude.{ℕ, String, ◌≡◌, refl, ◌&&◌, ◌==◌, string_eq, arith, ok, update, inl}
use onlybackup.Model.Types.{
  Instant, Origin, complete, deleting, quarantined, purging, Operation, MaintenanceLease, status_eq,
}
use onlybackup.Catalog.Tables.{Db, Environment}
use onlybackup.Store.Rules.{transition, insert_operation, update_operation}
use onlybackup.Store.Request.{request_quarantine, request_purge, request_recovery}
use onlybackup.Store.Permit.{authorize_operation, validate_operation}
use onlybackup.Lifecycle.Edge.{Edge, Follows-edge}
use onlybackup.Lifecycle.Rows.{Keeps, Keeps-update}
use onlybackup.Lifecycle.Updates.{status_of_test}

-- the backups after a request for quarantine
quarantine_backups :
    (env : Environment) (id : String) (o : Origin) (actor reason : String) (now : Instant) (db : Db)
    (r : Operation × Db)
    → request_quarantine env id o actor reason now db ≡ ok r
    → r.1.backups
      ≡ update
          (λ b. b.id == id && b.status == complete)
          (λ b. record b { status = deleting })
          db.backups
unfolding request_quarantine transition insert_operation
quarantine_backups env id o actor reason now db r h = ground arith

pub request_quarantine-Keeps :
    {P : String → Instant → Type 0} (env : Environment) (id : String) (o : Origin)
    (actor reason : String) (now : Instant) (db : Db) (r : Operation × Db)
    → request_quarantine env id o actor reason now db ≡ ok r
    → Keeps P db.backups r.1.backups
request_quarantine-Keeps env id o actor reason now db r h =
    rw (quarantine_backups env id o actor reason now db r h) (
      Keeps-update _ _ db.backups λ b t.
        Follows-edge b _ complete (refl, refl, refl, refl, refl, refl)
          (status_of_test b id complete t) Edge.choose (λ h. ground arith))

purge_backups :
    (env : Environment) (id : String) (o : Origin) (actor reason : String) (now : Instant) (db : Db)
    (r : Operation × Db)
    → request_purge env id o actor reason now db ≡ ok r
    → r.1.backups
      ≡ update
          (λ b. b.id == id && b.status == quarantined)
          (λ b. record b { status = purging })
          db.backups
unfolding request_purge transition insert_operation
purge_backups env id o actor reason now db r h = ground arith

pub request_purge-Keeps :
    {P : String → Instant → Type 0} (env : Environment) (id : String) (o : Origin)
    (actor reason : String) (now : Instant) (db : Db) (r : Operation × Db)
    → request_purge env id o actor reason now db ≡ ok r
    → Keeps P db.backups r.1.backups
request_purge-Keeps env id o actor reason now db r h =
    rw (purge_backups env id o actor reason now db r h) (
      Keeps-update _ _ db.backups λ b t.
        Follows-edge b _ quarantined (refl, refl, refl, refl, refl, refl)
          (status_of_test b id quarantined t) Edge.condemn
          (λ h q. h (inl (status_of_test b id quarantined t))))

pub request_recovery-backups :
    (id actor reason : String) (now : Instant) (db : Db) (r : Operation × Db)
    → request_recovery id actor reason now db ≡ ok r
    → r.1.backups ≡ db.backups
unfolding request_recovery insert_operation
request_recovery-backups id actor reason now db r h = ground arith

pub authorize_operation-backups :
    (env : Environment) (id : ℕ) (ticket : String) (lease : MaintenanceLease) (now : Instant)
    (db db' : Db)
    → authorize_operation env id ticket lease now db ≡ ok db'
    → db'.backups ≡ db.backups
unfolding authorize_operation update_operation
authorize_operation-backups env id ticket lease now db db' h = ground arith

pub validate_operation-backups :
    (env : Environment) (id : ℕ) (ticket : String) (lease : MaintenanceLease) (now : Instant)
    (db db' : Db)
    → validate_operation env id ticket lease now db ≡ ok db'
    → db'.backups ≡ db.backups
unfolding validate_operation update_operation
validate_operation-backups env id ticket lease now db db' h = ground arith
