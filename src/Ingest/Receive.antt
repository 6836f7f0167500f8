-- ===== src/Ingest/Receive.antt =====
-- Receive of internal/ingest/writer.go: one admitted transfer, from the creation of the staging file to the
-- receipt. The errors that the file system may return are arguments.
pub mod Receipt
use onlybackup.Prelude.{
  ℕ, ◌+◌, String, Bool, true, false, ◌&&◌, ◌||◌, not, Option, none, some, List, [], ◌∷◌, ◌==◌,
  nat_eq, string_eq, if◌then◌else◌, Result, ok, err,
}
use onlybackup.Model.Types.{Instant, Backup, Received, stamped, complete}
use onlybackup.Model.Text.{concat}
use onlybackup.Catalog.Tables.{Db, Environment}
use onlybackup.Store.Failure.{fail}
use onlybackup.Store.Complete.{Finding, complete_deposit}
use onlybackup.Ingest.Copy.{
  Devices, Copied, CopyEnd, finished, read_failed, write_failed, copy_and_hash,
}
use onlybackup.Ingest.Files.{Files, find_file, remove_file, add_file}

-- An error is ENOSPC or another.
pub data Fault : Type 0 where
  no_space io_error : Fault

-- What each call returns: `none` is no error. `write` is the error of the writes, if one fails.
pub record Faults : Type 0 where
  pub create : Option Fault
  pub write : Fault
  pub chmod : Option Fault
  pub sync : Option Fault
  pub close : Option Fault
  pub link : Option Fault
  pub sync_archives : Option Fault
  pub remove : Option Fault
  pub sync_incoming : Option Fault
  pub commit : Fault
  pub cleanup : Option Fault

pub data Reply : Type 0 where
  refused : ℕ → String → Reply
  receipt : Backup → Reply

-- storageError
unfoldable pub storage_error : String → Fault → Reply
storage_error operation no_space = refused 507 (concat "spazio disco esaurito durante " operation)
storage_error operation io_error =
    refused 503 (concat "esito non confermato: " (concat operation " non riuscita"))

first_fault : Option Fault → Option Fault → Option Fault
first_fault none e = e
first_fault (some f) e = some f

or_reply : String → Option Fault → Option Reply
or_reply operation none = none
or_reply operation (some f) = some (storage_error operation f)

checked_copy : Fault → Backup → ℕ → CopyEnd → String → Option Reply
checked_copy fault b total write_failed digest = some (storage_error "scrittura del backup" fault)
checked_copy fault b total read_failed digest =
    some (refused 400 "trasferimento incompleto o dimensione errata")
checked_copy fault b total finished digest =
    if not (total == b.size)
    then some (refused 400 "trasferimento incompleto o dimensione errata")
    else if not (digest == b.sha256)
    then some (refused 422 "integrità del file non verificata")
    else none

or_else : Option Reply → Option Reply → Option Reply
or_else none r = r
or_else (some r) _ = some r

-- Chmod, then Sync if it succeeded, then Close; the first error counts.
saved : Faults → Option Reply
unfolding first_fault or_reply
saved f = or_reply "salvataggio del backup" (first_fault (first_fault f.chmod f.sync) f.close)

-- the answer to a transfer that is not published, or `none` if it may be
unfoldable pub refuse_copy :
    (List ℕ → String) → Faults → Backup → ℕ → CopyEnd → List ℕ → Option Reply
unfolding checked_copy or_else saved
refuse_copy sha256 f b total ending hashed =
    or_else (checked_copy f.write b total ending (sha256 hashed)) (saved f)

pub record Transfer : Type 0 where
  pub reply : Reply
  pub files : Files
  pub db : Db

keep_or : Result Db → Db → Db
keep_or (ok db') db = db'
keep_or (err e) db = db

removed : Option Fault → String → Files → Files
removed none id files = record files { incoming = remove_file id files.incoming }
removed (some f) id files = files

-- the deferred clean-up of a transfer that was not published
unfoldable pub abandon : Environment → Faults → Instant → Backup → Reply → Files → Db → Transfer
unfolding keep_or removed
abandon env f now b reply files db = record {
  reply = reply;
  files = removed f.cleanup b.id files;
  db = keep_or (fail env b.id "upload interrotto o non valido" now db) db;
}

confirmed : Faults → Instant → Backup → Files → Result Db → Db → Transfer
confirmed f now b files (ok db') db = record {
  reply = receipt (record b { status = complete; received_at = stamped now });
  files = files;
  db = db';
}
confirmed f now b files (err e) db = record {
  reply = storage_error "persistenza del catalogo" f.commit;
  files = files;
  db = db;
}

unsynced :
    Faults → Environment → Instant → List Finding → Backup → Files → Db → Option Fault → Transfer
unfolding confirmed
unsynced f env now findings b files db (some e) = record {
  reply = storage_error "sincronizzazione dei temporanei" e;
  files = files;
  db = db;
}
unsynced f env now findings b files db none =
    confirmed f now b files (complete_deposit env b.id now findings db) db

staged :
    Faults → Environment → Instant → List Finding → Backup → Files → Db → Option Fault → Transfer
unfolding unsynced
staged f env now findings b files db (some e) = record {
  reply = refused 503 "esito non confermato";
  files = files;
  db = db;
}
staged f env now findings b files db none =
    unsynced f env now findings b (record files { incoming = remove_file b.id files.incoming }) db
      f.sync_incoming

-- the steps after the link, in their order
unfoldable pub publish :
    Faults → Environment → Instant → List Finding → Backup → Files → Db → Option Fault → Transfer
unfolding staged
publish f env now findings b files db (some e) = record {
  reply = storage_error "sincronizzazione del backup pubblicato" e;
  files = files;
  db = db;
}
publish f env now findings b files db none = staged f env now findings b files db f.remove

link_fault : Option Fault → Option (List ℕ) → Option Fault
link_fault (some e) _ = some e
link_fault none (some bytes) = some io_error
link_fault none none = none

linked :
    Faults
    → Environment
    → Instant
    → List Finding
    → Backup
    → List ℕ
    → Files
    → Db
    → Option Fault
    → Transfer
linked f env now findings b bytes files db (some e) =
    abandon env f now b (storage_error "pubblicazione del backup" e) files db
linked f env now findings b bytes files db none =
    publish f env now findings b (record files { archives = add_file b.id bytes files.archives }) db
      f.sync_archives

-- the part after the copy; the staging file now has these bytes
unfoldable pub store_copy :
    (List ℕ → String)
    → Faults
    → Environment
    → Instant
    → List Finding
    → Backup
    → ℕ
    → CopyEnd
    → List ℕ
    → List ℕ
    → Files
    → Db
    → Transfer
unfolding linked link_fault
store_copy sha256 f env now findings b total ending hashed bytes files db =
    let written = record files { incoming = add_file b.id bytes files.incoming } in
    elim (refuse_copy sha256 f b total ending hashed) [
      | some reply ↦ abandon env f now b reply written db
      | none ↦
          linked f env now findings b bytes written db
            (link_fault f.link (find_file b.id files.archives))
    ]

create_fault : Option Fault → Option (List ℕ) → Option Fault
create_fault (some e) _ = some e
create_fault none (some bytes) = some io_error
create_fault none none = none

module _ (d : Devices) where
  after_copy :
      (List ℕ → String)
      → Faults
      → Environment
      → Instant
      → List Finding
      → Backup
      → Files
      → Db
      → Option (Copied d.S)
      → Option Transfer
  after_copy sha256 f env now findings b files db none = none
  after_copy sha256 f env now findings b files db (some c) =
      some (
        store_copy sha256 f env now findings b c.total c.ending c.hashed (d.content c.sink) files
          db)

  after_create :
      (List ℕ → String)
      → Faults
      → Environment
      → Instant
      → List Finding
      → Backup
      → d.R
      → d.S
      → Files
      → Db
      → Option Fault
      → Option Transfer
  after_create sha256 f env now findings b body file files db (some e) =
      some (abandon env f now b (storage_error "creazione del file temporaneo" e) files db)
  after_create sha256 f env now findings b body file files db none =
      after_copy sha256 f env now findings b files db (copy_and_hash d (b.size + 1) body file)

  -- Receive, with the sink of a new file; `none` would be a copy that does not return.
  unfoldable pub receive :
      (List ℕ → String)
      → Faults
      → Environment
      → Instant
      → List Finding
      → Backup
      → d.R
      → d.S
      → Files
      → Db
      → Option Transfer
  unfolding create_fault after_create after_copy
  receive sha256 f env now findings b body file files db =
      after_create sha256 f env now findings b body file files db
        (create_fault f.create (find_file b.id files.incoming))
