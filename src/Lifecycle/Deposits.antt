-- ===== src/Lifecycle/Deposits.antt =====
-- The same for the deposits: ReserveIdempotentChecked and Fail.
use onlybackup.Prelude.{
  String, ◌≡◌, refl, ◌&&◌, ◌==◌, string_eq, [], ◌∷◌, ◌++◌, arith, ok, update, any, >>=-eq-ok,
  ensure, no_rows, unauthorized, from_option,
}
use onlybackup.Model.Types.{Instant, receiving, failed, Backup, Profile, status_eq}
use onlybackup.Catalog.Tables.{Db, Environment}
use onlybackup.Store.Rules.{find_backup}
use onlybackup.Store.Failure.{fail}
use onlybackup.Store.Frame.{open_anomaly-KeepsWork}
use onlybackup.Store.Reserve.{
  Request, Plan, fresh, again, answered, DiskCheck, admit, reserve, restart, new_backup,
  store_deposit, validate_request, find_active_key, find_profile, lookup_plan, check_limits,
  check_disk_space, deposit_id,
}
use onlybackup.Lifecycle.Edge.{Edge, Follows-edge}
use onlybackup.Lifecycle.Rows.{Keeps, Keeps-update, Keeps-of_eq, Keeps-append}
use onlybackup.Lifecycle.Updates.{status_of_test}

pub fail-Keeps :
    {P : String → Instant → Type 0} (env : Environment) (id reason : String) (now : Instant)
    (db db' : Db)
    → fail env id reason now db ≡ ok db'
    → Keeps P db.backups db'.backups
unfolding fail
fail-Keeps env id reason now db db' h =
    let (u, found, r1) =
      >>=-eq-ok (ensure (any (λ b. b.id == id && b.status == receiving) db.backups) no_rows) _ h in
    let (b, owner, r2) = >>=-eq-ok (find_backup id db) _ r1 in
    let w = open_anomaly-KeepsWork env _ _ _ _ _ now _ db' r2 in
    rw (w.backups) (
      Keeps-update _ _ db.backups λ x t.
        Follows-edge x _ receiving (refl, refl, refl, refl, refl, refl)
          (status_of_test x id receiving t) Edge.give_up (λ h. ground arith))

-- a new row is appended
insert-Keeps :
    {P : String → Instant → Type 0} (plan : Plan) (r : Request) (fresh_id key_id : String)
    (now : Instant) (db db' : Db)
    → store_deposit plan r fresh_id key_id now db ≡ ok db'
    → Keeps P db.backups db'.backups
unfolding store_deposit
insert-Keeps (again id) r fresh_id key_id now db db' h =
    let e : db'.backups
        ≡ update (λ b. b.id == id && b.status == failed) (restart id now) db.backups =
      ground arith in
    rw e (
      Keeps-update _ _ db.backups λ x t.
        unfold restart in
        Follows-edge x _ failed (refl, refl, refl, refl, refl, refl) (status_of_test x id failed t)
          Edge.retry (λ h. ground arith))
insert-Keeps fresh r fresh_id key_id now db db' h =
    let e : db'.backups ≡ db.backups ++ new_backup r fresh_id key_id now ∷ [] = ground arith in
    rw e (Keeps-append _ db.backups (unfold new_backup in refl))
insert-Keeps (answered b) r fresh_id key_id now db db' h =
    let e : db'.backups ≡ db.backups ++ new_backup r fresh_id key_id now ∷ [] = ground arith in
    rw e (Keeps-append _ db.backups (unfold new_backup in refl))

admit-Keeps :
    {P : String → Instant → Type 0} (plan : Plan) (r : Request) (p : Profile)
    (key_id fresh_id : String) (now : Instant) (check : DiskCheck) (db : Db) (out : Backup × Db)
    → admit plan r p key_id fresh_id now check db ≡ ok out
    → Keeps P db.backups out.1.backups
unfolding admit
admit-Keeps (answered b) r p key_id fresh_id now check db out h = Keeps-of_eq (ground arith)
admit-Keeps plan r p key_id fresh_id now check db out h =
    let (u, limits, r1) = >>=-eq-ok (check_limits p key_id r.size now db) _ h in
    let (v, disk, r2) = >>=-eq-ok (check_disk_space check r.size db) _ r1 in
    let (db1, stored, r3) =
      >>=-eq-ok (store_deposit plan r fresh_id key_id now db)
        (λ d. ok (new_backup r (deposit_id plan fresh_id) key_id now, d)) r2 in
    let e : out.1.backups ≡ db1.backups = ground arith in
    rw e (insert-Keeps plan r fresh_id key_id now db db1 stored)

pub reserve-Keeps :
    {P : String → Instant → Type 0} (env : Environment) (r : Request) (fresh_id : String)
    (now : Instant) (check : DiskCheck) (db : Db) (out : Backup × Db)
    → reserve env r fresh_id now check db ≡ ok out
    → Keeps P db.backups out.1.backups
unfolding reserve
reserve-Keeps env r fresh_id now check db out h =
    let (u, valid, r1) = >>=-eq-ok (validate_request r) _ h in
    let (k, key, r2) = >>=-eq-ok (from_option (find_active_key env r.token db) unauthorized) _ r1 in
    let (p, profile, r3) = >>=-eq-ok (find_profile k db) _ r2 in
    let (plan, known, r4) = >>=-eq-ok (lookup_plan r k.id db) _ r3 in
    admit-Keeps plan r p k.id fresh_id now check db out r4
