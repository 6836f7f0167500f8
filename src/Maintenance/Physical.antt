-- ===== src/Maintenance/Physical.antt =====
-- The operations on files of internal/maintenance/service.go: executeLeased with what it calls. A directory of the
-- archive is the list of its files, by the identifiers in their names. What the calls of the file system and of
-- the store return are arguments; the errors are those beyond a file that does not exist or exists already, which
-- the directories tell.
pub mod Change
pub mod Safe
use onlybackup.Prelude.{
  ℕ, String, Bool, true, false, ◌&&◌, ◌||◌, not, Option, none, some, List, length, ◌==◌, nat_eq,
  string_eq, if◌then◌else◌, Result, Error, ok, err, refused, ensure, refuse_if, ◌>>=◌, ◌>>◌,
}
use onlybackup.Model.Types.{Backup, Operation, Kind, quarantine, purge, recover}
use onlybackup.Model.Hex.{valid_id}
use onlybackup.Ingest.Files.{Directory, find_file, remove_file, add_file}
use onlybackup.Ingest.Restart.{unless, verify}

-- archives/backups and archives/quarantine
pub record Archive : Type 0 where
  pub backups : Directory
  pub isolated : Directory

-- What renameat2 with RENAME_NOREPLACE says; ENOSYS and EINVAL are `unsupported`.
pub data Rename : Type 0 where
  accepted unsupported : Rename
  failed : Error → Rename

-- `checkpoint` is the answer of the renewal of the lease and of the store's validation of the ticket.
pub record Conditions : Type 0 where
  pub is_special : Bool
  pub read : Option Error
  pub lstat_destination : Option Error
  pub checkpoint : Option Error
  pub lstat_source : Option Error
  pub lstat_again : Option Error
  pub rename : Rename
  pub link : Option Error
  pub sync_link : Option Error
  pub remove : Option Error
  pub sync : Option Error
  pub open_file : Option Error
  pub is_replaced : Bool
  pub is_replaced_after : Bool
  pub unlink : Option Error

passes : Result (Unit {0}) → Bool
passes (ok u) = true
passes (err e) = false

is_present : Option (List ℕ) → Bool
is_present none = false
is_present (some bytes) = true

-- validFileContext
unfoldable pub valid_file : (List ℕ → String) → Conditions → Backup → Option (List ℕ) → Bool
unfolding passes
valid_file sha256 o b none = false
valid_file sha256 o b (some bytes) =
    not o.is_special
    && length bytes == b.size
    && passes (verify sha256 o.read b.size b.sha256 bytes)

-- verifyExclusiveSourceContext; an error of the context is not told apart
unfoldable pub verify_source :
    (List ℕ → String) → Conditions → Backup → Option (List ℕ) → Option (List ℕ) → Result (Unit {0})
unfolding is_present
verify_source sha256 o b source destination = do
  ensure (valid_file sha256 o b source)
      (refused "file sorgente assente, simbolico o con identita errata")
  refuse_if (is_present destination) (refused "collisione: file destinazione gia presente")
  unless o.lstat_destination

has_size : ℕ → Option (List ℕ) → Bool
has_size size none = false
has_size size (some bytes) = length bytes == size

-- verifyExclusiveSourceIdentity
unfoldable pub verify_identity :
    Conditions → Backup → Option (List ℕ) → Option (List ℕ) → Result (Unit {0})
unfolding is_present has_size
verify_identity o b source destination = do
  unless o.lstat_source
  ensure (not o.is_special && has_size b.size source)
      (refused "file sorgente assente, simbolico o con identita errata")
  refuse_if (is_present destination) (refused "collisione: file destinazione gia presente")
  unless o.lstat_again

-- the error, if one stopped it, and the two directories that it leaves
pub record Moved : Type 0 where
  pub problem : Option Error
  pub source : Directory
  pub destination : Directory

-- the fallback: os.Link, the synchronization of the destination, os.Remove
fall_back :
    Conditions
    → String
    → List ℕ
    → Directory
    → Directory
    → Option Error
    → Option Error
    → Option Error
    → Moved
fall_back o id bytes source destination (some e) _ _ = record {
  problem = some e;
  source = source;
  destination = destination;
}
fall_back o id bytes source destination none (some e) _ = record {
  problem = some e;
  source = source;
  destination = add_file id bytes destination;
}
fall_back o id bytes source destination none none (some e) = record {
  problem = some e;
  source = source;
  destination = add_file id bytes destination;
}
fall_back o id bytes source destination none none none = record {
  problem = none;
  source = remove_file id source;
  destination = add_file id bytes destination;
}

rename_file : Conditions → String → List ℕ → Directory → Directory → Rename → Moved
unfolding fall_back
rename_file o id bytes source destination (failed e) = record {
  problem = some e;
  source = source;
  destination = destination;
}
rename_file o id bytes source destination accepted = record {
  problem = none;
  source = remove_file id source;
  destination = add_file id bytes destination;
}
rename_file o id bytes source destination unsupported =
    fall_back o id bytes source destination o.link o.sync_link o.remove

-- renameNoReplace: the kernel refuses a name that exists and a source that does not
unfoldable pub rename_no_replace :
    Conditions → String → Directory → Directory → Option (List ℕ) → Option (List ℕ) → Moved
unfolding rename_file
rename_no_replace o id source destination none _ = record {
  problem = some (refused "ENOENT");
  source = source;
  destination = destination;
}
rename_no_replace o id source destination (some bytes) (some other) = record {
  problem = some (refused "EEXIST");
  source = source;
  destination = destination;
}
rename_no_replace o id source destination (some bytes) none =
    rename_file o id bytes source destination o.rename

-- the checkpoint, which work that the store has committed already does not need
unfoldable pub check_permission : Conditions → Operation → Result (Unit {0})
check_permission o op = if op.execution_committed then ok tt else unless o.checkpoint

guarded : Directory → Directory → Result (Unit {0}) → Moved → Moved
guarded source destination (err e) m = record {
  problem = some e;
  source = source;
  destination = destination;
}
guarded source destination (ok u) m = m

-- syncDirectories, if the move succeeded
synced : Option Error → Moved → Moved
synced sync m = elim (m.problem) [ none ↦ record m { problem = sync } | some e ↦ m ]

-- the checks before a move, in their order
unfoldable pub permit_move :
    (List ℕ → String)
    → Conditions
    → Operation
    → Backup
    → Option (List ℕ)
    → Option (List ℕ)
    → Result (Unit {0})
permit_move sha256 o op b found taken = do
  verify_source sha256 o b found taken
  check_permission o op
  verify_identity o b found taken

-- the branches of executeLeased that move a file
unfoldable pub move :
    (List ℕ → String) → Conditions → Operation → Backup → Directory → Directory → Moved
unfolding guarded synced
move sha256 o op b source destination =
    let found = find_file b.id source in
    let taken = find_file b.id destination in
    guarded source destination (permit_move sha256 o op b found taken)
      (synced o.sync (rename_no_replace o b.id source destination found taken))

-- the checks of unlinkVerifiedBeforeContext, with the checkpoint as its beforeRemove
unfoldable pub verify_unlink :
    (List ℕ → String) → Conditions → Operation → Backup → Option (List ℕ) → Result (Unit {0})
unfolding has_size
verify_unlink sha256 o op b none = err (refused "ENOENT")
verify_unlink sha256 o op b (some bytes) = do
  unless o.open_file
  ensure (not o.is_special && length bytes == b.size) (refused "file da eliminare non valido")
  refuse_if o.is_replaced (refused "file sostituito durante la verifica")
  verify sha256 o.read b.size b.sha256 bytes
  check_permission o op
  refuse_if o.is_replaced_after (refused "file sostituito dopo la verifica")
  unless o.unlink

unlinked : Conditions → String → Directory → Directory → Result (Unit {0}) → Moved
unlinked o id source destination (err e) = record {
  problem = some e;
  source = source;
  destination = destination;
}
unlinked o id source destination (ok u) = record {
  problem = o.sync;
  source = remove_file id source;
  destination = destination;
}

unfoldable pub permit_erase :
    (List ℕ → String)
    → Conditions
    → Operation
    → Backup
    → Option (List ℕ)
    → Option (List ℕ)
    → Result (Unit {0})
permit_erase sha256 o op b found taken = do
  verify_source sha256 o b found taken
  verify_unlink sha256 o op b found

-- the branch that purges a file; the destination is only looked at
unfoldable pub erase :
    (List ℕ → String) → Conditions → Operation → Backup → Directory → Directory → Moved
unfolding unlinked
erase sha256 o op b source destination =
    unlinked o b.id source destination
      (permit_erase sha256 o op b (find_file b.id source) (find_file b.id destination))

-- the error, if one stopped it, and the archive that it leaves
pub record Executed : Type 0 where
  pub problem : Option Error
  pub archive : Archive

by_kind : (List ℕ → String) → Conditions → Operation → Backup → Archive → Kind → Executed
by_kind sha256 o op b a quarantine =
    let m = move sha256 o op b a.backups a.isolated in
    record {
      problem = m.problem;
      archive = record { backups = m.source; isolated = m.destination };
    }
by_kind sha256 o op b a recover =
    let m = move sha256 o op b a.isolated a.backups in
    record {
      problem = m.problem;
      archive = record { backups = m.destination; isolated = m.source };
    }
by_kind sha256 o op b a purge =
    let m = erase sha256 o op b a.isolated a.backups in
    record {
      problem = m.problem;
      archive = record { backups = m.destination; isolated = m.source };
    }

-- executeLeased
unfoldable pub execute_leased :
    (List ℕ → String) → Conditions → Operation → Backup → Archive → Executed
unfolding by_kind
execute_leased sha256 o op b a =
    if not (valid_id b.id) || not (op.backup_id == b.id)
    then record { problem = some (refused "identita backup non valida"); archive = a }
    else by_kind sha256 o op b a op.kind
