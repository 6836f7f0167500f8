-- ===== src/Maintenance/Physical/Safe.antt =====
-- What an execution does to the files of an archive.
use onlybackup.Prelude.{
  ℕ, String, ◌≡◌, ◌≢◌, refl, sym, ap, ◌∙◌, ◌⊎◌, inl, inr, false, ◌||◌, not, none, some, List, ◌==◌,
  nat_eq, string_eq, Bool-cases, str_iff, arith,
}
use onlybackup.Model.Types.{Backup, Operation, Kind, quarantine, purge, recover}
use onlybackup.Model.Hex.{valid_id}
use onlybackup.Ingest.Files.{
  Directory, find_file, remove_file, add_file, find_file-add_file, find_file-add_file_other,
  find_file-remove_file, find_file-remove_file_apart,
}
use onlybackup.Maintenance.Physical.{Archive, Conditions, Moved, Executed, execute_leased, by_kind}
use onlybackup.Maintenance.Physical.Change.{Permitted, Change, move-Change, erase-Change}

-- A file that an archive holds, in either directory.
abbrev pub Held : Archive → String → List ℕ → Type 0
Held a id bytes = (find_file id a.backups ≡ some bytes) ⊎ (find_file id a.isolated ≡ some bytes)

abbrev pub source_of : Kind → Archive → Directory
source_of quarantine a = a.backups
source_of _ a = a.isolated

abbrev pub destination_of : Kind → Archive → Directory
destination_of quarantine a = a.isolated
destination_of _ a = a.backups

-- What an execution may have done.
pub record IsExecuted (sha256 : List ℕ → String) (o : Conditions) (op : Operation) (b : Backup)
    (before : Archive) (r : Executed) : Type 0 where
  pub kept :
      (id : String) (bytes : List ℕ)
      → Held before id bytes
      → (op.kind ≡ purge → (b.id == id) ≡ false)
      → Held r.archive id bytes
  pub permitted :
      (r.archive ≡ before)
      ⊎ ((bytes : List ℕ) × Permitted sha256 o op b
            (source_of op.kind before)
            (destination_of op.kind before)
            bytes)
  pub done :
      r.problem ≡ none
      → (bytes : List ℕ) × (find_file b.id (source_of op.kind before) ≡ some bytes)
        × (find_file b.id (source_of op.kind r.archive) ≡ none)
        × (op.kind ≢ purge → find_file b.id (destination_of op.kind r.archive) ≡ some bytes)

module _ (sha256 : List ℕ → String) (o : Conditions) (op : Operation) (b : Backup)
    (source destination : Directory) where
  In : Directory → Directory → String → List ℕ → Type 0
  In s d id bytes = (find_file id s ≡ some bytes) ⊎ (find_file id d ≡ some bytes)

  -- the file of the operation after a move
  moved-In :
      (bytes x : List ℕ) (id : String)
      → Permitted sha256 o op b source destination bytes
      → In source destination id x
      → In (remove_file b.id source) (add_file b.id bytes destination) id x
  unfolding In
  moved-In bytes x id p (inr there) =
      inr (find_file-add_file_other id b.id bytes x destination there)
  moved-In bytes x id p (inl here) = elim (Bool-cases (b.id == id)) [
    | inr apart ↦ inl (find_file-remove_file_apart id b.id source apart ∙ here)
    | inl hit ↦
        let same : b.id ≡ id = (str_iff b.id id).0 hit in
        let whole : some bytes ≡ some x = sym p.found ∙ ap (λ n. find_file n source) same ∙ here in
        inr (
          ap (λ n. find_file n (add_file b.id bytes destination)) (sym same)
          ∙ find_file-add_file b.id bytes destination p.free
          ∙ whole)
  ]

  Change-In :
      (m : Moved) (id : String) (x : List ℕ)
      → Change sha256 o op b source destination m
      → (op.kind ≡ purge → (b.id == id) ≡ false)
      → In source destination id x
      → In m.source m.destination id x
  unfolding In
  Change-In _ id x (Change.untouched e) k h = h
  Change-In _ id x (Change.doubled e bytes p) k (inl here) = inl here
  Change-In _ id x (Change.doubled e bytes p) k (inr there) =
      inr (find_file-add_file_other id b.id bytes x destination there)
  Change-In _ id x (Change.moved q bytes p) k h = moved-In bytes x id p h
  Change-In _ id x (Change.erased q bytes p is_purge) k (inl here) =
      inl (find_file-remove_file_apart id b.id source (k is_purge) ∙ here)
  Change-In _ id x (Change.erased q bytes p is_purge) k (inr there) = inr there

  Change-Permitted :
      (m : Moved)
      → Change sha256 o op b source destination m
      → ((m.source ≡ source) × (m.destination ≡ destination))
        ⊎ ((bytes : List ℕ) × Permitted sha256 o op b source destination bytes)
  Change-Permitted _ (Change.untouched e) = inl (refl, refl)
  Change-Permitted _ (Change.doubled e bytes p) = inr (bytes, p)
  Change-Permitted _ (Change.moved q bytes p) = inr (bytes, p)
  Change-Permitted _ (Change.erased q bytes p k) = inr (bytes, p)

  Change-done :
      (m : Moved)
      → Change sha256 o op b source destination m
      → m.problem ≡ none
      → (bytes : List ℕ) × (find_file b.id source ≡ some bytes)
        × (find_file b.id m.source ≡ none)
        × (op.kind ≢ purge → find_file b.id m.destination ≡ some bytes)
  Change-done _ (Change.untouched e) h = absurd (ground arith)
  Change-done _ (Change.doubled e bytes p) h = absurd (ground arith)
  Change-done _ (Change.moved q bytes p) h = (
    bytes,
    p.found,
    find_file-remove_file b.id source,
    λ k. find_file-add_file b.id bytes destination p.free,
  )
  Change-done _ (Change.erased q bytes p is_purge) h =
      (bytes, p.found, find_file-remove_file b.id source, λ k. absurd (k is_purge))

module _ (sha256 : List ℕ → String) (o : Conditions) (op : Operation) (b : Backup)
    (a : Archive) where
  swap : {X Y : Type 0} → X ⊎ Y → Y ⊎ X
  swap (inl x) = inr x
  swap (inr y) = inl y

  -- the archive of an execution whose files go from the deposits to the quarantine, and the other way
  isolating :
      (m : Moved)
      → op.kind ≡ quarantine
      → Change sha256 o op b a.backups a.isolated m
      → IsExecuted sha256 o op b a (record {
        problem = m.problem;
        archive = record { backups = m.source; isolated = m.destination };
      })
  unfolding In
  isolating m e c = record {
    kept = λ id bytes h k. Change-In sha256 o op b a.backups a.isolated m id bytes c k h;
    permitted = elim (Change-Permitted sha256 o op b a.backups a.isolated m c) [
      | inl (s, d) ↦ inl (rw s (rw d refl))
      | inr p ↦ inr (rw (ap (λ q. source_of q a) e) (rw (ap (λ q. destination_of q a) e) p))
    ];
    done = λ h. let r = Change-done sha256 o op b a.backups a.isolated m c h in rw e (rw e at r);
  }

  returning :
      (m : Moved) (k : Kind)
      → op.kind ≡ k
      → k ≢ quarantine
      → Change sha256 o op b a.isolated a.backups m
      → IsExecuted sha256 o op b a (record {
        problem = m.problem;
        archive = record { backups = m.destination; isolated = m.source };
      })
  unfolding In
  returning m quarantine e n c = absurd (n refl)
  returning m k e n c = record {
    kept =
        λ id bytes h k. swap (Change-In sha256 o op b a.isolated a.backups m id bytes c k (swap h));
    permitted = elim (Change-Permitted sha256 o op b a.isolated a.backups m c) [
      | inl (s, d) ↦ inl (rw s (rw d refl))
      | inr p ↦ inr (rw (ap (λ q. source_of q a) e) (rw (ap (λ q. destination_of q a) e) p))
    ];
    done = λ h. let r = Change-done sha256 o op b a.isolated a.backups m c h in rw e (rw e at r);
  }

  by_kind-IsExecuted :
      (k : Kind) → op.kind ≡ k → IsExecuted sha256 o op b a (by_kind sha256 o op b a k)
  unfolding by_kind
  by_kind-IsExecuted quarantine e = isolating _ e (move-Change sha256 o op b a.backups a.isolated)
  by_kind-IsExecuted recover e =
      returning _ recover e (λ h. absurd (ground arith))
        (move-Change sha256 o op b a.isolated a.backups)
  by_kind-IsExecuted purge e =
      returning _ purge e (λ h. absurd (ground arith))
        (erase-Change sha256 o op b a.isolated a.backups e)

  -- Whatever goes wrong, an execution loses no file but that of a purge. It changes the archive only if the file
  -- has the size and the digest of the deposit, its new name is free, and the store has committed the work or the
  -- lease and the ticket were just found valid. And if it reports no error, the file was there, it is gone from
  -- where it was, and unless the operation is a purge it is in the other directory with the same contents.
  pub execute_leased-IsSafe : IsExecuted sha256 o op b a (execute_leased sha256 o op b a)
  unfolding execute_leased
  execute_leased-IsSafe = elim (Bool-cases (not (valid_id b.id) || not (op.backup_id == b.id))) [
    | inl refuses ↦ rw refuses (record {
      kept = λ id bytes h k. h;
      permitted = inl refl;
      done = λ h. absurd (ground arith);
    })
    | inr fits ↦ rw fits (by_kind-IsExecuted op.kind refl)
  ]
