-- ===== src/Ingest/Restart/Settled.antt =====
-- What Reconcile does to each deposit and to the directory of the staging files.
use onlybackup.Prelude.{
  ℕ, String, ◌≡◌, refl, sym, ap, ◌∙◌, inl, inr, Bool, true, false, ◌&&◌, Option, none, some, List,
  [], ◌∷◌, length, All, ◌==◌, nat_eq, string_eq, ok, refused, no_rows, ensure, >>=-eq-ok, keep,
  update, any, arith, Option-cases, Result-cases, str_iff, nat_beq_iff,
}
use onlybackup.Model.Types.{Instant, Backup, stamped, receiving, complete, failed, status_eq}
use onlybackup.Model.Hex.{valid_id}
use onlybackup.Catalog.Tables.{Db, Environment}
use onlybackup.Store.Rules.{find_backup}
use onlybackup.Store.Failure.{fail}
use onlybackup.Store.Frame.{open_anomaly-KeepsWork}
use onlybackup.Store.Complete.{Finding, mark_complete, complete_deposit}
use onlybackup.Lifecycle.Completion.{open_findings-KeepsWork, completed_backups}
use onlybackup.Ingest.Files.{Files, Directory, find_file, remove_file}
use onlybackup.Ingest.Restart.{
  Obstacles, unless, verify, settle_file, settle, Recovery, settle_all, sweep, sweep_all, reconcile,
}
use onlybackup.Ingest.Restart.Sweep.{sweep-gone}

-- the deposit after a restart, by the file that is published under its identifier
pub decided : (String → Instant) → Backup → Option (List ℕ) → Backup
decided now b none = record b { status = failed; failure = "invio interrotto dal riavvio" }
decided now b (some bytes) = record b {
  status = complete;
  received_at = stamped (now b.id);
  failure = "";
}

unfoldable pub decide : (String → Instant) → Directory → Backup → Backup
decide now archives b = decided now b (find_file b.id archives)

-- the rows that `settle` changes
abbrev matches : String → Backup → Bool
matches id b = b.id == id && b.status == receiving

update-ext :
    (p : Backup → Bool) (f g : Backup → Backup) (bs : List Backup)
    → ((b : Backup) → p b ≡ true → f b ≡ g b)
    → update p f bs ≡ update p g bs
unfolding update
update-ext p f g [] h = refl
update-ext p f g (b ∷ bs) h = ground (arith, h b, update-ext p f g bs h)

failed_backups :
    (env : Environment) (id reason : String) (now : Instant) (db db' : Db)
    → fail env id reason now db ≡ ok db'
    → db'.backups
      ≡ update (matches id) (λ b. record b { status = failed; failure = reason }) db.backups
unfolding fail
failed_backups env id reason now db db' h =
    let (u, found, r1) = >>=-eq-ok (ensure (any (matches id) db.backups) no_rows) _ h in
    let (b, owner, r2) = >>=-eq-ok (find_backup id db) _ r1 in
    (open_anomaly-KeepsWork env _ _ _ _ _ now _ db' r2).backups

-- One deposit that is settled: all its unfinished rows are decided by the published file, which has the size
-- and the digest of the deposit.
abbrev pub Verified : (List ℕ → String) → Backup → Option (List ℕ) → Type 0
Verified sha256 b none = Unit
Verified sha256 b (some bytes) = (length bytes ≡ b.size) × (sha256 bytes ≡ b.sha256)

decide_at :
    (now : String → Instant) (archives : Directory) (id : String) (found : Option (List ℕ))
    (x : Backup)
    → find_file id archives ≡ found
    → matches id x ≡ true
    → decided now x found ≡ decide now archives x
unfolding decide
decide_at now archives id found x h t =
    let same : x.id ≡ id = ground (arith, str_iff x.id id) in rw same (rw h refl)

complete_deposit-backups :
    (env : Environment) (id : String) (now : Instant) (fs : List Finding) (db db' : Db)
    → complete_deposit env id now fs db ≡ ok db'
    → db'.backups
      ≡ update
          (matches id)
          (λ b. record b { status = complete; received_at = stamped now; failure = "" })
          db.backups
unfolding complete_deposit
complete_deposit-backups env id now fs db db' h =
    let (db1, marked, rest) = >>=-eq-ok (mark_complete id now db) _ h in
    (open_findings-KeepsWork env fs now db1 db' rest).backups
    ∙ completed_backups id now db db1 marked

completed_at :
    (now : String → Instant) (id : String) (bytes : List ℕ) (x : Backup)
    → matches id x ≡ true
    → record x { status = complete; received_at = stamped (now id); failure = "" }
      ≡ decided now x (some bytes)
unfolding decided
completed_at now id bytes x t =
    let same : x.id ≡ id = ground (arith, str_iff x.id id) in rw same refl

module _ (sha256 : List ℕ → String) (o : Obstacles) (env : Environment) (now : String → Instant)
    (findings : String → List Finding) where
  settle_file-decides :
      (b : Backup) (archives : Directory) (found : Option (List ℕ)) (db db' : Db)
      → find_file b.id archives ≡ found
      → settle_file sha256 o env now findings b found db ≡ ok db'
      → (db'.backups ≡ update (matches b.id) (decide now archives) db.backups)
        × Verified sha256 b found
  unfolding settle_file verify unless decided
  settle_file-decides b archives none db db' e h = (
    failed_backups env b.id _ (now b.id) db db' h
        ∙ update-ext _ _ _ db.backups (λ x t. decide_at now archives b.id none x e t),
    tt,
  )
  settle_file-decides b archives (some bytes) db db' e h =
      let size : (length bytes == b.size) ≡ true = ground arith in
      let digest : (sha256 bytes == b.sha256) ≡ true = ground arith in
      let done : complete_deposit env b.id (now b.id) (findings b.id) db ≡ ok db' = ground arith in
      (
        complete_deposit-backups env b.id (now b.id) (findings b.id) db db' done
            ∙ update-ext _ _ _ db.backups (λ x t.
              completed_at now b.id bytes x t ∙ decide_at now archives b.id (some bytes) x e t),
        ((nat_beq_iff _ _).0 size, (str_iff _ _).0 digest),
      )

  settle-decides :
      (b : Backup) (archives : Directory) (db db' : Db)
      → settle sha256 o env now findings archives b db ≡ ok db'
      → (db'.backups ≡ update (matches b.id) (decide now archives) db.backups)
        × Verified sha256 b (find_file b.id archives)
  unfolding settle
  settle-decides b archives db db' h =
      let (u, valid, r1) =
        >>=-eq-ok (ensure (valid_id b.id) (refused "identificativo non valido nel catalogo")) _ h in
      let (v, found, r2) = >>=-eq-ok (unless (o.lstat b.id)) _ r1 in
      settle_file-decides b archives (find_file b.id archives) db db' refl r2

-- a deposit that is unfinished and whose identifier is listed
abbrev is_listed : List Backup → Backup → Bool
is_listed bs x = x.status == receiving && any (λ b. x.id == b.id) bs

decided-status :
    (now : String → Instant) (x : Backup) (found : Option (List ℕ))
    → ((decided now x found).status == receiving) ≡ false
unfolding decided
decided-status now x none = refl
decided-status now x (some bytes) = refl

update-twice :
    (now : String → Instant) (archives : Directory) (b : Backup) (bs xs : List Backup)
    → update (is_listed bs) (decide now archives) (update (matches b.id) (decide now archives) xs)
      ≡ update (is_listed (b ∷ bs)) (decide now archives) xs
unfolding update any decide
update-twice now archives b bs [] = refl
update-twice now archives b bs (x ∷ xs) =
    ground
      (arith, update-twice now archives b bs xs, decided-status now x (find_file x.id archives))

update-none : (f : Backup → Backup) (xs : List Backup) → update (is_listed []) f xs ≡ xs
unfolding update any
update-none f [] = refl
update-none f (x ∷ xs) = ground (arith, update-none f xs)

module _ (sha256 : List ℕ → String) (o : Obstacles) (env : Environment) (now : String → Instant)
    (findings : String → List Finding) where
  settle_all-step :
      (b : Backup) (bs : List Backup) (archives incoming : Directory) (db db' : Db)
      → settle sha256 o env now findings archives b db ≡ ok db'
      → o.remove b.id ≡ none
      → settle_all sha256 o env now findings archives (b ∷ bs) incoming db
        ≡ settle_all sha256 o env now findings archives bs (remove_file b.id incoming) db'
  unfolding settle_all
  settle_all-step b bs archives incoming db db' done gone = ground arith

  settle_all-first :
      (b : Backup) (bs : List Backup) (archives incoming : Directory) (db : Db)
      → (settle_all sha256 o env now findings archives (b ∷ bs) incoming db).problem ≡ none
      → (db' : Db) × (settle sha256 o env now findings archives b db ≡ ok db')
        × (o.remove b.id ≡ none)
  unfolding settle_all
  settle_all-first b bs archives incoming db h =
      elim (Result-cases (settle sha256 o env now findings archives b db)) [
        | inl (e, problem) ↦ absurd (ground arith)
        | inr (db', done) ↦ elim (Option-cases (o.remove b.id)) [
          | inl gone ↦ (db', done, gone)
          | inr (e, problem) ↦ absurd (ground arith)
        ]
      ]

  settle_all-decides :
      (bs : List Backup) (archives incoming : Directory) (db : Db)
      → (settle_all sha256 o env now findings archives bs incoming db).problem ≡ none
      → ((settle_all sha256 o env now findings archives bs incoming db).db.backups
          ≡ update (is_listed bs) (decide now archives) db.backups)
        × All (λ b. Verified sha256 b (find_file b.id archives)) bs
  settle_all-decides [] archives incoming db h =
      unfold settle_all in (sym (update-none _ db.backups), tt)
  settle_all-decides (b ∷ bs) archives incoming db h =
      let (db', done, gone) = settle_all-first b bs archives incoming db h in
      let (one, good) = settle-decides sha256 o env now findings b archives db db' done in
      let step = settle_all-step b bs archives incoming db db' done gone in
      let (rest, others) =
        settle_all-decides bs archives (remove_file b.id incoming) db' (rw step at h) in
      rw step (
        rest
            ∙ ap (update (is_listed bs) (decide now archives)) one
            ∙ update-twice now archives b bs db.backups,
        (good, others),
      )

abbrev unfinished : Backup → Bool
unfinished b = b.status == receiving

-- Every row that is unfinished is listed by the query.
update-listed :
    (f : Backup → Backup) (ys bs : List Backup)
    → ((x : Backup)
        → any (λ b. x.id == b.id) (keep unfinished bs) ≡ true
        → any (λ b. x.id == b.id) ys ≡ true)
    → update (is_listed ys) f bs ≡ update unfinished f bs
unfolding update keep any
update-listed f ys [] h = refl
update-listed f ys (b ∷ bs) h =
    let same : (b.id == b.id) ≡ true = (str_iff b.id b.id).1 refl in
    let rest = update-listed f ys bs λ x t. h x (ground arith) in ground (arith, h b, rest)

any-decided :
    (now : String → Instant) (archives : Directory) (bs : List Backup)
    → any unfinished (update unfinished (decide now archives) bs) ≡ false
unfolding update any decide
any-decided now archives [] = refl
any-decided now archives (b ∷ bs) =
    ground (arith, any-decided now archives bs, decided-status now b (find_file b.id archives))

-- what a reconciliation without an error has gone through
record Passed (o : Obstacles) (all : Recovery) (r : Recovery) : Type 0 where
  settled : all.problem ≡ none
  swept : (sweep o all.incoming all.incoming).0 ≡ none
  incoming : r.incoming ≡ (sweep o all.incoming all.incoming).1
  db : r.db ≡ all.db

module _ (sha256 : List ℕ → String) (o : Obstacles) (env : Environment) (now : String → Instant)
    (findings : String → List Finding) where
  reconcile-Passed :
      (files : Files) (db : Db)
      → (reconcile sha256 o env now findings files db).problem ≡ none
      → Passed o
          (settle_all sha256 o env now findings files.archives
            (keep unfinished db.backups)
            files.incoming
            db)
          (reconcile sha256 o env now findings files db)
  unfolding reconcile sweep_all
  reconcile-Passed files db h = record {
    settled = ground arith;
    swept = ground arith;
    incoming = ground arith;
    db = ground arith;
  }

  -- Reconcile without an error decides every unfinished deposit and no other: it is complete if a file is
  -- published under its identifier, and then that file has the size and the digest of the deposit; it has failed
  -- if no file is. No deposit is unfinished afterwards, and no correctly named file is left in incoming.
  pub reconcile-IsSettled :
      (files : Files) (db : Db)
      → (reconcile sha256 o env now findings files db).problem ≡ none
      → ((reconcile sha256 o env now findings files db).db.backups
          ≡ update (λ b. b.status == receiving) (decide now files.archives) db.backups)
        × All
            (λ b. Verified sha256 b (find_file b.id files.archives))
            (keep (λ b. b.status == receiving) db.backups)
        × (any
              (λ b. b.status == receiving)
              (reconcile sha256 o env now findings files db).db.backups
            ≡ false)
        × ((id : String)
            → valid_id id ≡ true
            → find_file id (reconcile sha256 o env now findings files db).incoming ≡ none)
  reconcile-IsSettled files db h =
      let p = reconcile-Passed files db h in
      let (rows, good) =
        settle_all-decides sha256 o env now findings (keep unfinished db.backups) files.archives
          files.incoming db p.settled in
      let all =
        ap (λ d. d.backups) p.db
        ∙ rows
        ∙ update-listed (decide now files.archives) _ db.backups (λ x t. t) in
      (
        all,
        good,
        rw all (any-decided now files.archives db.backups),
        λ id v. rw (p.incoming) (sweep-gone o id _ _ p.swept v (λ e. e)),
      )
