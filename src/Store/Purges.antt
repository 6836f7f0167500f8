-- ===== src/Store/Purges.antt =====
-- The guards of a request for purge, and what the catalogue still holds after it.
use onlybackup.Prelude.{
  ◌≤◌, String, ◌≡◌, false, ◌&&◌, ◌||◌, not, some, ltb, leb, ◌==◌, nat_eq, string_eq, ok, refused,
  retention_blocked, last_copy, too_early, arith, count, update, >>=-eq-ok, refuse_if-ok, ensure-ok,
  from_option-ok, ensure, refuse_if, select,
}
use onlybackup.Model.Types.{
  Instant, unix, quarantined, purging, Backup, Key, Operation, Origin, status_eq, same_status_iff,
}
use onlybackup.Model.Text.{is_blank}
use onlybackup.Model.Hex.{valid_id}
use onlybackup.Policy.Protection.{backup_time, retention_protected}
use onlybackup.Catalog.Tables.{Db, Environment, is_blocked}
use onlybackup.Store.Rules.{
  find_backup, find_key, has_id, is_missing, is_stable_copy, check_retention_minimum,
  retention_days_for, transition, insert_operation,
}
use onlybackup.Store.Request.{request_purge}
use onlybackup.Store.Copies.{count-update_bound, minimum_old}

-- What a granted request for purge has established.
pub record Purgeable (env : Environment) (id : String) (now : Instant) (db : Db) : Type 0 where
  pub b : Backup
  pub k : Key
  pub found : select (has_id id) db.backups ≡ some b
  pub owner : select (λ k. k.id == b.key_id) db.keys ≡ some k
  pub free : is_blocked db.automation ≡ false
  pub active : k.revoked ≡ false
  pub status : b.status ≡ quarantined
  pub present : is_missing db.anomalies id ≡ false
  pub due : b.purge_not_before ≤ unix now
  pub copies : 2 ≤ count (is_stable_copy b.key_id db.anomalies) db.backups
  pub old :
      retention_protected env.load_location
        (backup_time b)
        now
        db.automation.timezone
        (retention_days_for b.key_id db)
      ≡ ok false

pub request_purge-IsGuarded :
    (env : Environment) (id : String) (o : Origin) (actor reason : String) (now : Instant) (db : Db)
    (r : Operation × Db)
    → request_purge env id o actor reason now db ≡ ok r
    → Purgeable env id now db
unfolding request_purge
request_purge-IsGuarded env id o actor reason now db r h =
    let (u1, _, h1) =
      >>=-eq-ok
        (refuse_if (not (valid_id id) || is_blank actor) (refused "richiesta purge non valida")) _
        h in
    let (u2, free, h2) = >>=-eq-ok (refuse_if (is_blocked db.automation) retention_blocked) _ h1 in
    let (b, found, h4) = >>=-eq-ok (find_backup id db) _ h2 in
    let (k, owner, h5) = >>=-eq-ok (find_key b.key_id db) _ h4 in
    let (u6, active, h6) =
      >>=-eq-ok
        (refuse_if k.revoked (refused "i backup di una chiave revocata non sono eliminabili")) _
        h5 in
    let (u7, status, h7) =
      >>=-eq-ok (ensure (b.status == quarantined) (refused "backup non in quarantena")) _ h6 in
    let (u8, present, h8) =
      >>=-eq-ok
        (refuse_if (is_missing db.anomalies id)
          (refused "backup riconosciuto come definitivamente mancante"))
        _ h7 in
    let (u9, minimum, h9) = >>=-eq-ok (check_retention_minimum env id now db) _ h8 in
    let (u10, due, h10) =
      >>=-eq-ok (refuse_if (b.purge_not_before == 0 || ltb (unix now) b.purge_not_before) too_early)
        _ h9 in
    let (u11, copies, h11) =
      >>=-eq-ok
        (refuse_if (leb (count (is_stable_copy b.key_id db.anomalies) db.backups) 1) last_copy) _
        h10 in
    record {
      b = b;
      k = k;
      found = from_option-ok _ _ b found;
      owner = from_option-ok _ _ k owner;
      free = refuse_if-ok _ _ u2 free;
      active = refuse_if-ok _ _ u6 active;
      status = (same_status_iff b.status quarantined).0 (ensure-ok _ _ u7 status);
      present = refuse_if-ok _ _ u8 present;
      due = ground (arith, refuse_if-ok _ _ u10 due);
      copies = ground (arith, refuse_if-ok _ _ u11 copies);
      old = minimum_old env id now db b u9 (from_option-ok _ _ b found) minimum;
    }

request_purge-writes :
    (env : Environment) (id : String) (o : Origin) (actor reason : String) (now : Instant) (db : Db)
    (r : Operation × Db)
    → request_purge env id o actor reason now db ≡ ok r
    → (r.1.backups
        ≡ update
            (λ b. b.id == id && b.status == quarantined)
            (λ b. record b { status = purging })
            db.backups)
      × (r.1.anomalies ≡ db.anomalies)
      × (count (λ b. b.id == id && b.status == quarantined) db.backups ≡ 1)
unfolding request_purge transition insert_operation
request_purge-writes env id o actor reason now db r h = ground arith

-- After a granted request for purge, the key of the backup still has a copy that is complete, about to be
-- quarantined, or in quarantine, and not known to be missing.
pub request_purge-leaves_copy :
    (env : Environment) (id : String) (o : Origin) (actor reason : String) (now : Instant) (db : Db)
    (r : Operation × Db)
    → request_purge env id o actor reason now db ≡ ok r
    → (b : Backup) × (select (has_id id) db.backups ≡ some b)
      × (1 ≤ count (is_stable_copy b.key_id r.1.anomalies) r.1.backups)
request_purge-leaves_copy env id o actor reason now db r h =
    let g = request_purge-IsGuarded env id o actor reason now db r h in
    let (bs, as', one) = request_purge-writes env id o actor reason now db r h in
    let few =
      count-update_bound (is_stable_copy g.b.key_id db.anomalies)
        (λ b. b.id == id && b.status == quarantined) (λ b. record b { status = purging })
        db.backups in
    let many = g.copies in (g.b, g.found, rw bs (rw as' (omega (arith, few, one, many))))
