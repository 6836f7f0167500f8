-- ===== src/Store/Failure.antt =====
-- Fail of internal/store/store.go.
use onlybackup.Prelude.{
  String, ◌==◌, string_eq, ◌&&◌, Result, no_rows, ◌>>=◌, update, any, ensure, ◌>>◌,
}
use onlybackup.Model.Types.{Instant, receiving, failed, status_eq}
use onlybackup.Model.Text.{concat}
use onlybackup.Catalog.Tables.{Db, Environment}
use onlybackup.Store.Anomaly.{open_anomaly}
use onlybackup.Store.Rules.{find_backup}

-- Fail, with time.Now() as an argument
unfoldable pub fail : Environment → String → String → Instant → Db → Result Db
fail env id reason now db = do
  ensure (any (λ b. b.id == id && b.status == receiving) db.backups) no_rows
  b ← find_backup id db
  open_anomaly env (concat "upload-failed:" id) "upload" b.key_id id reason now (record db {
    backups =
        update (λ b. b.id == id && b.status == receiving)
          (λ b. record b { status = failed; failure = reason }) db.backups;
  })
