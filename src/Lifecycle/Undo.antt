-- ===== src/Lifecycle/Undo.antt =====
-- The same for ResetAuthorized, CancelQuarantineRequest and Revoke.
use onlybackup.Prelude.{
  ℕ, String, ◌≡◌, refl, ◌∙◌, Bool, true, false, ◌&&◌, ◌||◌, ◌==◌, string_eq, List, [], ◌∷◌, arith,
  ok, any, keep, inr, if◌then◌else◌, >>=-eq-ok, ensure, ticket_refused, no_rows, refused,
  from_option, select,
}
use onlybackup.Model.Types.{
  Instant, deleting, purging, complete, quarantined, Backup, Operation, authorized, status_eq,
  state_eq, kind_eq, same_status_iff, quarantine, purge,
}
use onlybackup.Catalog.Tables.{Db}
use onlybackup.Store.Resolve.{resolve_operation}
use onlybackup.Store.Rules.{transition, find_backup, find_key}
use onlybackup.Store.Permit.{find_operation}
use onlybackup.Store.Confirm.{
  reset_authorized, restore, forget_ticket, cancel_authorized, request_again, mark_cancelled,
  mark_requested, drop_ticket,
}
use onlybackup.Store.Cancel.{
  cancel_quarantine_request, cancellable, mark_withdrawn, hold_after_cancel, revoke,
  restore_requested, resolve_all, is_cancelled_by, revoked_db,
}
use onlybackup.Store.Frame.{KeepsWork, KeepsWork-refl, KeepsWork-trans, resolve_operation-KeepsWork}
use onlybackup.Lifecycle.Edge
use onlybackup.Lifecycle.Edge.{Follows, Follows-edge, Follows-refl}
use onlybackup.Lifecycle.Rows.{Keeps, Keeps-map, Keeps-of_eq, Keeps-from}
use onlybackup.Lifecycle.Updates.{restore-Keeps, transition-Keeps}
use onlybackup.Lifecycle.Outcomes.{update_operation-backups, marked-backups}

forget_ticket-backups :
    (op : Operation) (now : Instant) (db db' : Db)
    → forget_ticket op now db ≡ ok db'
    → db'.backups ≡ db.backups
unfolding forget_ticket
forget_ticket-backups op now db db' h =
    marked-backups (drop_ticket op db) op.id now false db db'
      (λ db1 u. update_operation-backups _ _ _ db db1 u) h

request_again-backups :
    (op : Operation) (now : Instant) (db db' : Db)
    → request_again op now db ≡ ok db'
    → db'.backups ≡ db.backups
unfolding request_again
request_again-backups op now db db' h =
    marked-backups (mark_requested op db) op.id now false db db'
      (λ db1 u. update_operation-backups _ _ _ db db1 u) h

cancel_authorized-Keeps :
    {P : String → Instant → Type 0} (op : Operation) (now : Instant) (db db' : Db)
    → cancel_authorized op now db ≡ ok db'
    → Keeps P db.backups db'.backups
unfolding cancel_authorized
cancel_authorized-Keeps op now db db' h =
    let (db1, undone, rest) = >>=-eq-ok (restore op.kind op.backup_id db) _ h in
    let same =
      marked-backups (mark_cancelled op now db1) op.id now true db1 db'
        (λ db2 u. update_operation-backups _ _ _ db1 db2 u) rest in
    rw same (restore-Keeps op.kind op.backup_id db db1 undone)

reset_by-Keeps :
    {P : String → Instant → Type 0} (committed revoked : Bool) (op : Operation) (now : Instant)
    (db db' : Db)
    → (if committed
        then forget_ticket op now db
        else if revoked
        then cancel_authorized op now db
        else request_again op now db)
      ≡ ok db'
    → Keeps P db.backups db'.backups
reset_by-Keeps true revoked op now db db' h = Keeps-of_eq (forget_ticket-backups op now db db' h)
reset_by-Keeps false true op now db db' h = cancel_authorized-Keeps op now db db' h
reset_by-Keeps false false op now db db' h = Keeps-of_eq (request_again-backups op now db db' h)

pub reset_authorized-Keeps :
    {P : String → Instant → Type 0} (id : ℕ) (now : Instant) (db db' : Db)
    → reset_authorized id now db ≡ ok db'
    → Keeps P db.backups db'.backups
unfolding reset_authorized
reset_authorized-Keeps id now db db' h =
    let (op, found, r1) = >>=-eq-ok (find_operation id db) _ h in
    let (b, owner, r2) = >>=-eq-ok (find_backup op.backup_id db) _ r1 in
    let (k, key, r3) = >>=-eq-ok (find_key b.key_id db) _ r2 in
    let (u, state, r4) = >>=-eq-ok (ensure (op.state == authorized) ticket_refused) _ r3 in
    reset_by-Keeps op.execution_committed (k.revoked && (op.kind == quarantine || op.kind == purge))
      op now db db' r4

pub cancel_quarantine_request-Keeps :
    {P : String → Instant → Type 0} (backup_id actor : String) (now : Instant) (db db' : Db)
    → cancel_quarantine_request backup_id actor now db ≡ ok db'
    → Keeps P db.backups db'.backups
unfolding cancel_quarantine_request
cancel_quarantine_request-Keeps backup_id actor now db db' h =
    let (op, found, r1) =
      >>=-eq-ok
        (from_option (select (cancellable backup_id) db.operations)
          (refused "richiesta non annullabile: gia autorizzata o inesistente"))
        _ h in
    let (db1, marked, r2) = >>=-eq-ok (mark_withdrawn backup_id actor now db) _ r1 in
    let (db2, restored, r3) =
      >>=-eq-ok
        (transition backup_id deleting (λ b. record b { status = complete })
          (refused "backup non ripristinato dopo l'annullamento") db1)
        _ r2 in
    let w = resolve_operation-KeepsWork op.id now true (hold_after_cancel db2) db' r3 in
    let same : db'.backups ≡ db2.backups = w.backups ∙ (unfold hold_after_cancel in refl) in
    rw (same) (
      Keeps-from (update_operation-backups _ _ _ db db1 marked) (
        transition-Keeps backup_id deleting _ _ db1 db2 restored λ b i s.
          Follows-edge b _ deleting (refl, refl, refl, refl, refl, refl) s Edge.give_back
            (λ h. ground arith)))

resolve_all-KeepsWork :
    (ops : List Operation) (now : Instant) (db db' : Db)
    → resolve_all ops now db ≡ ok db'
    → KeepsWork db db'
unfolding resolve_all
resolve_all-KeepsWork [] now db db' h = let e : db' ≡ db = cc in rw e (KeepsWork-refl db)
resolve_all-KeepsWork (o ∷ os) now db db' h =
    let (db1, one, rest) = >>=-eq-ok (resolve_operation o.id now true db) _ h in
    KeepsWork-trans (resolve_operation-KeepsWork o.id now true db db1 one)
      (resolve_all-KeepsWork os now db1 db' rest)

-- the two updates of a revocation, with their tests abstract
restored-Follows :
    {P : String → Instant → Type 0} (c d : Bool) (b : Backup)
    → (c ≡ true → b.status ≡ deleting)
    → (d ≡ true → b.status ≡ purging)
    → Follows P b (
        if c
        then record b { status = complete }
        else if d
        then record b { status = quarantined }
        else b)
restored-Follows true d b hc hd =
    Follows-edge b _ deleting (refl, refl, refl, refl, refl, refl) (hc refl) Edge.give_back
      (λ h. ground arith)
restored-Follows false true b hc hd =
    Follows-edge b _ purging (refl, refl, refl, refl, refl, refl) (hd refl) Edge.spare
      (λ h q. h (inr (hd refl)))
restored-Follows false false b hc hd = Follows-refl b

middle : (p q r : Bool) → (p && q && r) ≡ true → q ≡ true
middle p q r h = ground arith

restore_requested-Follows :
    {P : String → Instant → Type 0} (key_id : String) (ops : List Operation) (b : Backup)
    → Follows P b (restore_requested key_id ops b)
unfolding restore_requested
restore_requested-Follows key_id ops b =
    restored-Follows _ _ b (λ h. (same_status_iff b.status deleting).0 (middle _ _ _ h))
      (λ h. (same_status_iff b.status purging).0 (middle _ _ _ h))

pub revoke-Keeps :
    {P : String → Instant → Type 0} (id : String) (now : Instant) (db db' : Db)
    → revoke id now db ≡ ok db'
    → Keeps P db.backups db'.backups
unfolding revoke revoked_db
revoke-Keeps id now db db' h =
    let (u, known, rest) = >>=-eq-ok (ensure (any (λ k. k.id == id) db.keys) no_rows) _ h in
    let w =
      resolve_all-KeepsWork (keep (is_cancelled_by id db.backups) db.operations) now _ db' rest in
    rw (w.backups) (Keeps-map _ db.backups (restore_requested-Follows id db.operations))
