-- ===== src/Lifecycle/Completion.antt =====
-- The same for Complete, whatever incidents it opens.
use onlybackup.Prelude.{
  String, ◌≡◌, refl, ◌∙◌, ◌&&◌, ◌==◌, string_eq, List, [], ◌∷◌, arith, ok, update, >>=-eq-ok,
}
use onlybackup.Model.Types.{Instant, stamped, receiving, complete, status_eq}
use onlybackup.Catalog.Tables.{Db, Environment}
use onlybackup.Store.Anomaly.{open_anomaly_at}
use onlybackup.Store.Complete.{Finding, open_findings, mark_complete, complete_deposit}
use onlybackup.Store.Frame.{KeepsWork, KeepsWork-refl, KeepsWork-trans, open_anomaly_at-KeepsWork}
use onlybackup.Lifecycle.Edge.{Edge, Follows-edge}
use onlybackup.Lifecycle.Rows.{Keeps, Keeps-update}
use onlybackup.Lifecycle.Updates.{status_of_test}

pub open_findings-KeepsWork :
    (env : Environment) (fs : List Finding) (now : Instant) (db db' : Db)
    → open_findings env fs now db ≡ ok db'
    → KeepsWork db db'
unfolding open_findings
open_findings-KeepsWork env [] now db db' h = let e : db' ≡ db = cc in rw e (KeepsWork-refl db)
open_findings-KeepsWork env (f ∷ fs) now db db' h =
    let (r, one, rest) =
      >>=-eq-ok (open_anomaly_at env f.stable_key f.kind f.key_id f.backup_id f.detail f.at now db)
        _ h in
    KeepsWork-trans (open_anomaly_at-KeepsWork env _ _ _ _ _ f.at now db r one)
      (open_findings-KeepsWork env fs now r.1 db' rest)

pub completed_backups :
    (id : String) (now : Instant) (db db' : Db)
    → mark_complete id now db ≡ ok db'
    → db'.backups
      ≡ update
          (λ b. b.id == id && b.status == receiving)
          (λ b. record b { status = complete; received_at = stamped now; failure = "" })
          db.backups
unfolding mark_complete
completed_backups id now db db' h = ground arith

pub complete_deposit-Keeps :
    {P : String → Instant → Type 0} (env : Environment) (id : String) (now : Instant)
    (fs : List Finding) (db db' : Db)
    → complete_deposit env id now fs db ≡ ok db'
    → Keeps P db.backups db'.backups
unfolding complete_deposit
complete_deposit-Keeps env id now fs db db' h =
    let (db1, marked, rest) = >>=-eq-ok (mark_complete id now db) _ h in
    let same = (open_findings-KeepsWork env fs now db1 db' rest).backups in
    rw (same ∙ completed_backups id now db db1 marked) (
      Keeps-update _ _ db.backups λ x t.
        Follows-edge x _ receiving (refl, refl, refl, refl, refl, refl)
          (status_of_test x id receiving t) Edge.finish (λ h. ground arith))
