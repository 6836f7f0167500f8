-- ===== src/Store/Cancel.antt =====
-- CancelQuarantineRequest of internal/store/retention.go and Revoke of internal/store/store.go.
use onlybackup.Prelude.{
  String, Bool, true, false, ◌&&◌, ◌||◌, List, [], ◌∷◌, ◌==◌, nat_eq, string_eq, if◌then◌else◌,
  Result, ok, refused, no_rows, from_option, ensure, ◌>>=◌, ◌>>◌, select, any, update, keep, map,
}
use onlybackup.Model.Types.{
  Instant, unix, Backup, complete, deleting, quarantined, purging, Kind, quarantine, purge,
  Operation, requested, cancelled, paused, state_eq, kind_eq, status_eq,
}
use onlybackup.Model.Text.{concat}
use onlybackup.Catalog.Tables.{Db}
use onlybackup.Store.Resolve.{resolve_operation}
use onlybackup.Store.Rules.{transition, update_operation}
use onlybackup.Store.Confirm.{revoked_note}

abbrev pub cancellable : String → Operation → Bool
cancellable backup_id o = o.backup_id == backup_id && o.kind == quarantine && o.state == requested

abbrev cancel_note : String
cancel_note = "richiesta annullata; riattivazione amministrativa richiesta"

unfoldable pub mark_withdrawn : String → String → Instant → Db → Result Db
mark_withdrawn backup_id actor now =
    update_operation (cancellable backup_id)
      (λ o. record o {
        state = cancelled;
        completed_at = unix now;
        error = concat "annullata da " actor;
      })
      (refused "richiesta non annullabile: gia autorizzata o inesistente")

-- a cancelled request suspends the automation
unfoldable pub hold_after_cancel : Db → Db
hold_after_cancel db = record db {
  automation = record db.automation {
    deletion_blocked = true;
    monitoring_state = paused;
    block_reason = cancel_note;
    manual_paused = true;
    manual_pause_reason = cancel_note;
    activation_pending = false;
    resume_pending = false;
    resume_requested_at = 0;
  };
}

-- CancelQuarantineRequest
unfoldable pub cancel_quarantine_request : String → String → Instant → Db → Result Db
unfolding mark_withdrawn hold_after_cancel
cancel_quarantine_request backup_id actor now db = do
  op ←
      from_option (select (cancellable backup_id) db.operations)
        (refused "richiesta non annullabile: gia autorizzata o inesistente")
  db' ← mark_withdrawn backup_id actor now db
  db'' ←
      transition backup_id deleting (λ b. record b { status = complete })
        (refused "backup non ripristinato dopo l'annullamento") db'
  resolve_operation op.id now true (hold_after_cancel db'')

abbrev is_requested : Kind → Operation → Bool
is_requested kind o = o.state == requested && o.kind == kind

-- the two updates of the backups of a revoked key
unfoldable pub restore_requested : String → List Operation → Backup → Backup
restore_requested key_id ops b =
    if b.key_id == key_id
      && b.status == deleting
      && any (λ o. is_requested quarantine o && o.backup_id == b.id) ops
    then record b { status = complete }
    else if b.key_id == key_id
        && b.status == purging
        && any (λ o. is_requested purge o && o.backup_id == b.id) ops
    then record b { status = quarantined }
    else b

-- the requests that a revocation cancels
unfoldable pub is_cancelled_by : String → List Backup → Operation → Bool
is_cancelled_by key_id backups o =
    (is_requested quarantine o || is_requested purge o)
    && any (λ b. b.id == o.backup_id && b.key_id == key_id) backups

unfoldable pub resolve_all : List Operation → Instant → Db → Result Db
resolve_all [] now db = ok db
resolve_all (o ∷ os) now db = do db' ← resolve_operation o.id now true db; resolve_all os now db'

-- the catalogue after the four updates of a revocation
unfoldable pub revoked_db : String → Instant → Db → Db
revoked_db id now db = record db {
  keys = update (λ k. k.id == id) (λ k. record k { revoked = true }) db.keys;
  backups = map (restore_requested id db.operations) db.backups;
  operations =
      update (is_cancelled_by id db.backups)
        (λ o. record o {
          state = cancelled;
          ticket_hash = "";
          lease_generation = 0;
          completed_at = unix now;
          error = revoked_note;
        })
        db.operations;
}

-- Revoke
unfoldable pub revoke : String → Instant → Db → Result Db
unfolding resolve_all revoked_db
revoke id now db = do
  ensure (any (λ k. k.id == id) db.keys) no_rows
  resolve_all (keep (is_cancelled_by id db.backups) db.operations) now (revoked_db id now db)
