-- ===== src/Ingest/Restart.antt =====
-- Reconcile of internal/ingest/writer.go, and Verify of internal/backupfile/verify.go: what becomes of the
-- unfinished deposits and of the staging files when the writer starts. The errors that the file system may
-- return are arguments; none of them is the one that says that a file does not exist, which the directories
-- of the model tell.
pub mod Sweep
pub mod Settled
use onlybackup.Prelude.{
  ℕ, String, Bool, ◌||◌, not, Option, none, some, List, [], ◌∷◌, length, ◌==◌, nat_eq, string_eq,
  if◌then◌else◌, Result, Error, ok, err, refused, refuse_if, ensure, ◌>>=◌, ◌>>◌, keep,
}
use onlybackup.Model.Types.{Instant, Backup, receiving, status_eq}
use onlybackup.Model.Text.{concat}
use onlybackup.Model.Hex.{valid_id}
use onlybackup.Catalog.Tables.{Db, Environment}
use onlybackup.Store.Failure.{fail}
use onlybackup.Store.Complete.{Finding, complete_deposit}
use onlybackup.Ingest.Files.{Files, Directory, find_file, remove_file}

-- What the calls return, by the identifier in the name of the file.
pub record Obstacles : Type 0 where
  pub query : Option Error
  pub lstat : String → Option Error
  pub is_special : String → Bool
  pub read : String → Option Error
  pub sync_archives : String → Option Error
  pub remove : String → Option Error
  pub read_dir : Option Error
  pub lstat_part : String → Option Error
  pub is_directory : String → Bool
  pub remove_part : String → Option Error
  pub sync_incoming : Option Error

-- `if err != nil { return err }`
unfoldable pub unless : Option Error → Result (Unit {0})
unless none = ok tt
unless (some e) = err e

-- Verify and VerifyContext, of a file with these bytes
unfoldable pub verify : (List ℕ → String) → Option Error → ℕ → String → List ℕ → Result (Unit {0})
unfolding unless
verify sha256 fault size digest bytes = do
  unless fault
  refuse_if (not (length bytes == size) || not (sha256 bytes == digest))
      (refused "dimensione o SHA-256 non corrispondenti")

-- the error without its cause
for_manual_check : String → Result (Unit {0}) → Result (Unit {0})
for_manual_check id (ok u) = ok u
for_manual_check id (err e) =
    err (refused (concat "backup " (concat id " da verificare manualmente")))

-- the branches of Reconcile for one deposit, by the published file
unfoldable pub settle_file :
    (List ℕ → String)
    → Obstacles
    → Environment
    → (String → Instant)
    → (String → List Finding)
    → Backup
    → Option (List ℕ)
    → Db
    → Result Db
unfolding for_manual_check unless
settle_file sha256 o env now findings b none db =
    fail env b.id "invio interrotto dal riavvio" (now b.id) db
settle_file sha256 o env now findings b (some bytes) db = do
  refuse_if (o.is_special b.id || not (length bytes == b.size))
      (refused (concat "backup " (concat b.id " da verificare manualmente: file finale anomalo")))
  for_manual_check b.id (verify sha256 (o.read b.id) b.size b.sha256 bytes)
  unless (o.sync_archives b.id)
  complete_deposit env b.id (now b.id) (findings b.id) db

unfoldable pub settle :
    (List ℕ → String)
    → Obstacles
    → Environment
    → (String → Instant)
    → (String → List Finding)
    → Directory
    → Backup
    → Db
    → Result Db
unfolding unless
settle sha256 o env now findings archives b db = do
  ensure (valid_id b.id) (refused "identificativo non valido nel catalogo")
  unless (o.lstat b.id)
  settle_file sha256 o env now findings b (find_file b.id archives) db

-- the error, if one stopped it, and what it left
pub record Recovery : Type 0 where
  pub problem : Option Error
  pub incoming : Directory
  pub db : Db

abbrev pub stopped : Error → Directory → Db → Recovery
stopped e incoming db = record { problem = some e; incoming = incoming; db = db }

-- the loop over the deposits that Pending returns
unfoldable pub settle_all :
    (List ℕ → String)
    → Obstacles
    → Environment
    → (String → Instant)
    → (String → List Finding)
    → Directory
    → List Backup
    → Directory
    → Db
    → Recovery
settle_all sha256 o env now findings archives [] incoming db = record {
  problem = none;
  incoming = incoming;
  db = db;
}
settle_all sha256 o env now findings archives (b ∷ bs) incoming db =
    elim (settle sha256 o env now findings archives b db) [
      | err e ↦ stopped e incoming db
      | ok db' ↦ elim (o.remove b.id) [
        | some e ↦ stopped e incoming db'
        | none ↦ settle_all sha256 o env now findings archives bs (remove_file b.id incoming) db'
      ]
    ]

-- one entry of incoming in the loop over os.ReadDir
unfoldable pub sweep_entry : Obstacles → String → Directory → Result Directory
unfolding unless
sweep_entry o id incoming = if not (valid_id id) then ok incoming else do
  unless (o.lstat_part id)
  refuse_if (o.is_directory id)
      (refused (concat "temporaneo " (concat id ".part anomalo: è una directory")))
  unless (o.remove_part id)
  ok (remove_file id incoming)

unfoldable pub sweep : Obstacles → Directory → Directory → Option Error × Directory
sweep o [] incoming = (none, incoming)
sweep o ((id, bytes) ∷ rest) incoming = elim (sweep_entry o id incoming) [
  | err e ↦ (some e, incoming)
  | ok left ↦ sweep o rest left
]

after_sweep : Option Error → Db → Option Error → Directory → Recovery
after_sweep sync db (some e) left = stopped e left db
after_sweep sync db none left = record { problem = sync; incoming = left; db = db }

-- the part of Reconcile after the loop over the deposits
unfoldable pub sweep_all : Obstacles → Option Error → Option Error → Directory → Db → Recovery
unfolding after_sweep
sweep_all o (some e) _ incoming db = stopped e incoming db
sweep_all o none (some e) incoming db = stopped e incoming db
sweep_all o none none incoming db =
    let (e, left) = sweep o incoming incoming in after_sweep o.sync_incoming db e left

reconcile_rows :
    (List ℕ → String)
    → Obstacles
    → Environment
    → (String → Instant)
    → (String → List Finding)
    → Files
    → Db
    → Option Error
    → Recovery
reconcile_rows sha256 o env now findings files db (some e) = stopped e files.incoming db
reconcile_rows sha256 o env now findings files db none =
    let r =
      settle_all sha256 o env now findings files.archives
        (keep (λ b. b.status == receiving) db.backups) files.incoming db in
    sweep_all o r.problem o.read_dir r.incoming r.db

-- Reconcile; Pending is the first query
unfoldable pub reconcile :
    (List ℕ → String)
    → Obstacles
    → Environment
    → (String → Instant)
    → (String → List Finding)
    → Files
    → Db
    → Recovery
unfolding reconcile_rows
reconcile sha256 o env now findings files db =
    reconcile_rows sha256 o env now findings files db o.query
