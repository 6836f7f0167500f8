-- ===== src/Store/Complete.antt =====
-- Complete of internal/store/store.go. The incidents that evaluateCompletedInTransaction finds come from the
-- floating-point model of a key and are an argument; each is opened in turn, in the same transaction.
use onlybackup.Prelude.{
  String, ◌&&◌, ◌==◌, string_eq, List, [], ◌∷◌, Result, ok, no_rows, ensure, ◌>>=◌, ◌>>◌, any,
  update,
}
use onlybackup.Model.Types.{Instant, stamped, receiving, complete, status_eq}
use onlybackup.Catalog.Tables.{Db, Environment}
use onlybackup.Store.Anomaly.{open_anomaly_at}

-- policy.Finding
pub record Finding : Type 0 where
  pub kind : String
  pub key_id : String
  pub backup_id : String
  pub detail : String
  pub stable_key : String
  pub at : Instant

unfoldable pub open_findings : Environment → List Finding → Instant → Db → Result Db
open_findings env [] now db = ok db
open_findings env (f ∷ fs) now db = do
  r ← open_anomaly_at env f.stable_key f.kind f.key_id f.backup_id f.detail f.at now db
  open_findings env fs now r.1

-- UPDATE backups SET status='complete',received_at=?,failure='' WHERE id=? AND status='receiving'
unfoldable pub mark_complete : String → Instant → Db → Result Db
mark_complete id now db = do
  ensure (any (λ b. b.id == id && b.status == receiving) db.backups) no_rows
  ok (record db {
    backups =
        update (λ b. b.id == id && b.status == receiving)
          (λ b. record b { status = complete; received_at = stamped now; failure = "" }) db.backups;
  })

-- Complete
unfoldable pub complete_deposit : Environment → String → Instant → List Finding → Db → Result Db
complete_deposit env id now findings db = do
  db' ← mark_complete id now db
  open_findings env findings now db'
