-- ===== src/Store/Copies.antt =====
-- The guards of the requests for quarantine and purge, and what the catalogue still holds after them.
use onlybackup.Prelude.{
  ◌+◌, ◌≤◌, String, ◌≡◌, ◌≢◌, Bool, false, ◌&&◌, ◌||◌, not, some, List, [], ◌∷◌, leb, ◌==◌, nat_eq,
  string_eq, ok, refused, retention_blocked, current_day, last_copy, arith, count, update,
  >>=-eq-ok, refuse_if-ok, ensure-ok, from_option-ok, ensure, refuse_if, from_option, select,
}
use onlybackup.Model.Types.{
  Instant, complete, deleting, Backup, Key, Operation, Origin, status_eq, same_status_iff,
}
use onlybackup.Policy.Protection.{backup_time, retention_protected}
use onlybackup.Catalog.Tables.{Db, Environment, Location, is_blocked}
use onlybackup.Store.Rules.{
  find_backup, find_key, has_id, is_missing, is_copy, check_retention_minimum, retention_days_for,
  transition, insert_operation,
}
use onlybackup.Store.Request.{request_quarantine, is_reconcile}
use onlybackup.Model.Text.{is_blank}
use onlybackup.Model.Hex.{valid_id}

-- An update loses at most as many rows with a property as it changes.
pub count-update_bound {ℓ} :
    {A : Type ℓ} (q p : A → Bool) (f : A → A) (xs : List A)
    → count q xs ≤ count q (update p f xs) + count p xs
unfolding count update
count-update_bound q p f [] = omega arith
count-update_bound q p f (x ∷ xs) = ground (arith, count-update_bound q p f xs)

-- What a granted request for quarantine has established.
pub record Quarantinable (env : Environment) (id : String) (now : Instant) (db : Db) : Type 0 where
  pub b : Backup
  pub k : Key
  pub loc : Location
  pub found : select (has_id id) db.backups ≡ some b
  pub owner : select (λ k. k.id == b.key_id) db.keys ≡ some k
  pub zone : env.load_location db.automation.timezone ≡ some loc
  pub free : is_blocked db.automation ≡ false
  pub active : k.revoked ≡ false
  pub status : b.status ≡ complete
  pub present : is_missing db.anomalies id ≡ false
  pub earlier : loc.day (backup_time b) ≢ loc.day now
  pub copies : 2 ≤ count (is_copy b.key_id db.anomalies) db.backups
  pub old :
      retention_protected env.load_location
        (backup_time b)
        now
        db.automation.timezone
        (retention_days_for b.key_id db)
      ≡ ok false

pub minimum_old :
    (env : Environment) (id : String) (now : Instant) (db : Db) (b : Backup) (u : Unit {0})
    → select (has_id id) db.backups ≡ some b
    → check_retention_minimum env id now db ≡ ok u
    → retention_protected env.load_location
        (backup_time b)
        now
        db.automation.timezone
        (retention_days_for b.key_id db)
      ≡ ok false
unfolding check_retention_minimum
minimum_old env id now db b u found h = ground arith

pub request_quarantine-IsGuarded :
    (env : Environment) (id : String) (o : Origin) (actor reason : String) (now : Instant) (db : Db)
    (r : Operation × Db)
    → request_quarantine env id o actor reason now db ≡ ok r
    → Quarantinable env id now db
unfolding request_quarantine
request_quarantine-IsGuarded env id o actor reason now db r h =
    let (u1, _, h1) =
      >>=-eq-ok
        (refuse_if (not (valid_id id) || is_reconcile o || is_blank actor)
          (refused "richiesta retention non valida"))
        _ h in
    let (u2, free, h2) = >>=-eq-ok (refuse_if (is_blocked db.automation) retention_blocked) _ h1 in
    let (loc, zone, h3) =
      >>=-eq-ok
        (from_option (env.load_location db.automation.timezone)
          (refused "fuso dell'automazione non valido"))
        _ h2 in
    let (b, found, h4) = >>=-eq-ok (find_backup id db) _ h3 in
    let (k, owner, h5) = >>=-eq-ok (find_key b.key_id db) _ h4 in
    let (u6, active, h6) =
      >>=-eq-ok
        (refuse_if k.revoked (refused "i backup di una chiave revocata non sono selezionabili")) _
        h5 in
    let (u7, status, h7) =
      >>=-eq-ok (ensure (b.status == complete) (refused "backup non selezionabile nello stato")) _
        h6 in
    let (u8, present, h8) =
      >>=-eq-ok
        (refuse_if (is_missing db.anomalies id)
          (refused "backup riconosciuto come definitivamente mancante"))
        _ h7 in
    let (u9, day, h9) =
      >>=-eq-ok (refuse_if (loc.day (backup_time b) == loc.day now) current_day) _ h8 in
    let (u10, copies, h10) =
      >>=-eq-ok (refuse_if (leb (count (is_copy b.key_id db.anomalies) db.backups) 1) last_copy) _
        h9 in
    let (u11, minimum, h11) = >>=-eq-ok (check_retention_minimum env id now db) _ h10 in
    record {
      b = b;
      k = k;
      loc = loc;
      found = from_option-ok _ _ b found;
      owner = from_option-ok _ _ k owner;
      zone = from_option-ok _ _ loc zone;
      free = refuse_if-ok _ _ u2 free;
      active = refuse_if-ok _ _ u6 active;
      status = (same_status_iff b.status complete).0 (ensure-ok _ _ u7 status);
      present = refuse_if-ok _ _ u8 present;
      earlier = λ e. ground (arith, refuse_if-ok _ _ u9 day);
      copies = ground (arith, refuse_if-ok _ _ u10 copies);
      old = minimum_old env id now db b u11 (from_option-ok _ _ b found) minimum;
    }

-- What the request writes.
request_quarantine-writes :
    (env : Environment) (id : String) (o : Origin) (actor reason : String) (now : Instant) (db : Db)
    (r : Operation × Db)
    → request_quarantine env id o actor reason now db ≡ ok r
    → (r.1.backups
        ≡ update
            (λ b. b.id == id && b.status == complete)
            (λ b. record b { status = deleting })
            db.backups)
      × (r.1.anomalies ≡ db.anomalies)
      × (count (λ b. b.id == id && b.status == complete) db.backups ≡ 1)
unfolding request_quarantine transition insert_operation
request_quarantine-writes env id o actor reason now db r h = ground arith

-- After a granted request for quarantine, the key of the backup still has a complete copy that is not
-- known to be missing.
pub request_quarantine-leaves_copy :
    (env : Environment) (id : String) (o : Origin) (actor reason : String) (now : Instant) (db : Db)
    (r : Operation × Db)
    → request_quarantine env id o actor reason now db ≡ ok r
    → (b : Backup) × (select (has_id id) db.backups ≡ some b)
      × (1 ≤ count (is_copy b.key_id r.1.anomalies) r.1.backups)
request_quarantine-leaves_copy env id o actor reason now db r h =
    let g = request_quarantine-IsGuarded env id o actor reason now db r h in
    let (bs, as', one) = request_quarantine-writes env id o actor reason now db r h in
    let few =
      count-update_bound (is_copy g.b.key_id db.anomalies) (λ b. b.id == id && b.status == complete)
        (λ b. record b { status = deleting }) db.backups in
    let many = g.copies in (g.b, g.found, rw bs (rw as' (omega (arith, few, one, many))))
