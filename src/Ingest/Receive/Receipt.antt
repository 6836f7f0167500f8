-- ===== src/Ingest/Receive/Receipt.antt =====
-- What a receipt promises, and what no transfer does to published files.
use onlybackup.Prelude.{
  ℕ, ◌+◌, String, ◌≡◌, ◌≢◌, refl, ap, ◌∙◌, inl, inr, none, some, List, [], ◌++◌, length, nat_eq,
  string_eq, ok, arith, str_iff, Option-cases,
}
use onlybackup.Model.Types.{Instant, Backup, stamped, complete}
use onlybackup.Catalog.Tables.{Db, Environment}
use onlybackup.Store.Complete.{Finding, complete_deposit}
use onlybackup.Ingest.Copy.{Devices, IsDevices, Copied, CopyEnd}
use onlybackup.Ingest.Copy.Total.{copy_and_hash-IsHashed}
use onlybackup.Ingest.Files.{
  Files, find_file, remove_file, add_file, find_file-add_file, find_file-add_file_other,
  find_file-remove_file,
}
use onlybackup.Ingest.Receive.{
  create_fault, Fault, Faults, Reply, receipt, storage_error, refuse_copy, Transfer, abandon,
  publish, store_copy, receive,
}

-- A receipt is given only for a copy without an error, of the size and the digest of the deposit, that was
-- published under a free name and whose deposit was completed in the catalogue.
record Published (sha256 : List ℕ → String) (env : Environment) (now : Instant)
    (findings : List Finding) (b : Backup) (total : ℕ) (hashed bytes : List ℕ) (files : Files)
    (db : Db) (t : Transfer) (given : Backup) : Type 0 where
  sized : total ≡ b.size
  digest : sha256 hashed ≡ b.sha256
  free : find_file b.id files.archives ≡ none
  archives : t.files.archives ≡ add_file b.id bytes files.archives
  incoming : t.files.incoming ≡ remove_file b.id (add_file b.id bytes files.incoming)
  completed : complete_deposit env b.id now findings db ≡ ok t.db
  answered : given ≡ record b { status = complete; received_at = stamped now }

store_copy-Published :
    (sha256 : List ℕ → String) (f : Faults) (env : Environment) (now : Instant)
    (findings : List Finding) (b : Backup) (total : ℕ) (ending : CopyEnd) (hashed bytes : List ℕ)
    (files : Files) (db : Db) (t : Transfer) (given : Backup)
    → store_copy sha256 f env now findings b total ending hashed bytes files db ≡ t
    → t.reply ≡ receipt given
    → Published sha256 env now findings b total hashed bytes files db t given
unfolding store_copy refuse_copy publish abandon storage_error
store_copy-Published sha256 f env now findings b total ending hashed bytes files db t given h e =
    record {
      sized = ground arith;
      digest = ground (arith, str_iff (sha256 hashed) b.sha256);
      free = ground arith;
      archives = ground arith;
      incoming = ground arith;
      completed = ground arith;
      answered = ground arith;
    }

-- Every file that was published stays published, with its contents, whatever becomes of the transfer.
store_copy-keeps :
    (sha256 : List ℕ → String) (f : Faults) (env : Environment) (now : Instant)
    (findings : List Finding) (b : Backup) (total : ℕ) (ending : CopyEnd) (hashed bytes : List ℕ)
    (files : Files) (db : Db) (id : String) (old : List ℕ)
    → find_file id files.archives ≡ some old
    → find_file id
        (store_copy sha256 f env now findings b total ending hashed bytes files db).files.archives
      ≡ some old
unfolding store_copy publish abandon
store_copy-keeps sha256 f env now findings b total ending hashed bytes files db id old h =
    ground (arith, find_file-add_file_other id b.id bytes old files.archives)

abandon-keeps :
    (env : Environment) (f : Faults) (now : Instant) (b : Backup) (r : Reply) (files : Files)
    (db : Db)
    → (abandon env f now b r files db).files.archives ≡ files.archives
unfolding abandon
abandon-keeps env f now b r files db = ground arith

storage_error-receipt :
    (operation : String) (e : Fault) (given : Backup) → storage_error operation e ≢ receipt given
unfolding storage_error
storage_error-receipt operation e given h = ground arith

-- What a receipt says of the published file.
pub record IsStored (sha256 : List ℕ → String) (env : Environment) (now : Instant)
    (findings : List Finding) (b : Backup) (files : Files) (db : Db) (t : Transfer) : Type 0 where
  pub bytes : List ℕ
  pub published : find_file b.id t.files.archives ≡ some bytes
  pub size : length bytes ≡ b.size
  pub digest : sha256 bytes ≡ b.sha256
  pub was_free : find_file b.id files.archives ≡ none
  pub unstaged : find_file b.id t.files.incoming ≡ none
  pub completed : complete_deposit env b.id now findings db ≡ ok t.db

module _ (d : Devices) (laws : IsDevices d) where
  IsStored-after :
      (sha256 : List ℕ → String) (f : Faults) (env : Environment) (now : Instant)
      (findings : List Finding) (b : Backup) (c : Copied d.S) (file : d.S) (files : Files) (db : Db)
      (given : Backup)
      → d.content file ≡ []
      → d.content c.sink ≡ d.content file ++ c.hashed
      → c.total ≡ length c.hashed
      → (store_copy sha256 f env now findings b c.total c.ending c.hashed
          (d.content c.sink)
          files
          db).reply
        ≡ receipt given
      → IsStored sha256 env now findings b files db (
          store_copy sha256 f env now findings b c.total c.ending c.hashed
            (d.content c.sink)
            files
            db)
  IsStored-after sha256 f env now findings b c file files db given clean copied counted e =
      let p =
        store_copy-Published sha256 f env now findings b c.total c.ending c.hashed
          (d.content c.sink) files db _ given refl e in
      let same : d.content c.sink ≡ c.hashed = rw clean at copied in
      record {
        bytes = d.content c.sink;
        published =
            rw (p.archives) (find_file-add_file b.id (d.content c.sink) files.archives p.free);
        size = omega (arith, ap length same, counted, p.sized);
        digest = ap sha256 same ∙ p.digest;
        was_free = p.free;
        unstaged = rw (p.incoming) (find_file-remove_file b.id _);
        completed = p.completed;
      }

  -- Receive always returns. If it answers with a receipt, then the file is published under the identifier of
  -- the deposit, which was free, with the size and the digest of the deposit, nothing of it is left in
  -- incoming, and the catalogue has completed the deposit. And whatever it answers, every file that was
  -- published before is still there with the same contents.
  pub receive-IsSafe :
      (sha256 : List ℕ → String) (f : Faults) (env : Environment) (now : Instant)
      (findings : List Finding) (b : Backup) (body : d.R) (file : d.S) (files : Files) (db : Db)
      → d.content file ≡ []
      → (t : Transfer) × (receive d sha256 f env now findings b body file files db ≡ some t)
        × ((given : Backup)
            → t.reply ≡ receipt given
            → IsStored sha256 env now findings b files db t)
        × ((id : String) (old : List ℕ)
            → find_file id files.archives ≡ some old
            → find_file id t.files.archives ≡ some old)
  unfolding receive abandon
  receive-IsSafe sha256 f env now findings b body file files db clean =
      elim (Option-cases (create_fault f.create (find_file b.id files.incoming))) [
        | inr (e, refusal) ↦ rw refusal (
          abandon env f now b (storage_error "creazione del file temporaneo" e) files db,
          refl,
          λ given r. absurd (storage_error-receipt "creazione del file temporaneo" e given r),
          λ id old h. rw (abandon-keeps env f now b _ files db) h,
        )
        | inl created ↦
            let (c, copied, content, counted, bound) =
              copy_and_hash-IsHashed d laws (b.size + 1) body file in
            rw created (
              rw copied (
                store_copy sha256 f env now findings b c.total c.ending c.hashed (d.content c.sink)
                    files db,
                refl,
                λ given e.
                    IsStored-after sha256 f env now findings b c file files db given clean content
                      counted e,
                λ id old h.
                    store_copy-keeps sha256 f env now findings b c.total c.ending c.hashed
                      (d.content c.sink) files db id old h,
              ))
      ]
