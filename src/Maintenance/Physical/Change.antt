-- ===== src/Maintenance/Physical/Change.antt =====
-- What becomes of a file and of its two directories.
use onlybackup.Prelude.{
  ℕ, String, ◌≡◌, refl, ◌⊎◌, true, Option, none, some, List, length, ◌==◌, nat_eq, string_eq,
  Result, Error, ok, err, >>=-eq-ok, str_iff, arith,
}
use onlybackup.Model.Types.{Backup, Operation, purge}
use onlybackup.Ingest.Files.{Directory, find_file, remove_file, add_file}
use onlybackup.Ingest.Restart.{unless, verify}
use onlybackup.Maintenance.Physical.{
  Rename, accepted, unsupported, failed, Conditions, valid_file, verify_source, Moved,
  rename_no_replace, check_permission, permit_move, permit_erase, move, verify_unlink, erase,
  synced, guarded, fall_back, rename_file, unlinked,
}

-- The file has the size and the digest of the deposit, nothing has the name that it is to get, and the store
-- has committed the work or the lease and the ticket were just found valid.
pub record Permitted (sha256 : List ℕ → String) (o : Conditions) (op : Operation) (b : Backup)
    (source destination : Directory) (bytes : List ℕ) : Type 0 where
  pub found : find_file b.id source ≡ some bytes
  pub free : find_file b.id destination ≡ none
  pub size : length bytes ≡ b.size
  pub digest : sha256 bytes ≡ b.sha256
  pub permission : (op.execution_committed ≡ true) ⊎ (o.checkpoint ≡ none)

-- What becomes of a file and the two directories.
pub data Change (sha256 : List ℕ → String) (o : Conditions) (op : Operation) (b : Backup)
    (source destination : Directory) : Moved → Type 0 where
  untouched :
      (e : Error)
      → Change sha256 o op b source destination
          (record { problem = some e; source = source; destination = destination })
  doubled :
      (e : Error) (bytes : List ℕ)
      → Permitted sha256 o op b source destination bytes
      → Change sha256 o op b source destination (record {
        problem = some e;
        source = source;
        destination = add_file b.id bytes destination;
      })
  moved :
      (p : Option Error) (bytes : List ℕ)
      → Permitted sha256 o op b source destination bytes
      → Change sha256 o op b source destination (record {
        problem = p;
        source = remove_file b.id source;
        destination = add_file b.id bytes destination;
      })
  erased :
      (p : Option Error) (bytes : List ℕ)
      → Permitted sha256 o op b source destination bytes
      → op.kind ≡ purge
      → Change sha256 o op b source destination
          (record { problem = p; source = remove_file b.id source; destination = destination })

module _ (sha256 : List ℕ → String) (o : Conditions) (op : Operation) (b : Backup) where
  verify_source-valid :
      (found taken : Option (List ℕ)) (u : Unit {0})
      → verify_source sha256 o b found taken ≡ ok u
      → (bytes : List ℕ) × (found ≡ some bytes)
        × (taken ≡ none)
        × (length bytes ≡ b.size)
        × (sha256 bytes ≡ b.sha256)
  unfolding verify_source valid_file verify unless
  verify_source-valid none taken u h = absurd (ground arith)
  verify_source-valid (some bytes) taken u h =
      let digest : (sha256 bytes == b.sha256) ≡ true = ground arith in
      (bytes, refl, ground arith, ground arith, (str_iff _ _).0 digest)

  check_permission-granted :
      (u : Unit {0})
      → check_permission o op ≡ ok u
      → (op.execution_committed ≡ true) ⊎ (o.checkpoint ≡ none)
  unfolding check_permission unless
  check_permission-granted u h = ground arith

  module _ (source destination : Directory) where
    fall_back-Change :
        (bytes : List ℕ) (l s r : Option Error)
        → Permitted sha256 o op b source destination bytes
        → Change sha256 o op b source destination (fall_back o b.id bytes source destination l s r)
    unfolding fall_back
    fall_back-Change bytes (some e) s r p = Change.untouched e
    fall_back-Change bytes none (some e) r p = Change.doubled e bytes p
    fall_back-Change bytes none none (some e) p = Change.doubled e bytes p
    fall_back-Change bytes none none none p = Change.moved none bytes p

    rename_file-Change :
        (bytes : List ℕ) (r : Rename)
        → Permitted sha256 o op b source destination bytes
        → Change sha256 o op b source destination (rename_file o b.id bytes source destination r)
    unfolding rename_file
    rename_file-Change bytes accepted p = Change.moved none bytes p
    rename_file-Change bytes unsupported p = fall_back-Change bytes o.link o.sync_link o.remove p
    rename_file-Change bytes (failed e) p = Change.untouched e

    synced-Change :
        (m : Moved)
        → Change sha256 o op b source destination m
        → Change sha256 o op b source destination (synced o.sync m)
    unfolding synced
    synced-Change _ (Change.untouched e) = Change.untouched e
    synced-Change _ (Change.doubled e bytes p) = Change.doubled e bytes p
    synced-Change _ (Change.moved none bytes p) = Change.moved o.sync bytes p
    synced-Change _ (Change.moved (some e) bytes p) = Change.moved (some e) bytes p
    synced-Change _ (Change.erased none bytes p k) = Change.erased o.sync bytes p k
    synced-Change _ (Change.erased (some e) bytes p k) = Change.erased (some e) bytes p k

    move-Permitted :
        permit_move sha256 o op b (find_file b.id source) (find_file b.id destination) ≡ ok tt
        → (bytes : List ℕ) × Permitted sha256 o op b source destination bytes
    unfolding permit_move
    move-Permitted h =
        let (u, valid, r1) =
          >>=-eq-ok (verify_source sha256 o b (find_file b.id source) (find_file b.id destination))
            _ h in
        let (v, granted, r2) = >>=-eq-ok (check_permission o op) _ r1 in
        let (bytes, found, free, size, digest) = verify_source-valid _ _ u valid in
        (
          bytes,
          record {
            found = found;
            free = free;
            size = size;
            digest = digest;
            permission = check_permission-granted v granted;
          },
        )

    guarded-Change :
        (r : Result (Unit {0})) (m : Moved)
        → (r ≡ ok tt → Change sha256 o op b source destination m)
        → Change sha256 o op b source destination (guarded source destination r m)
    unfolding guarded
    guarded-Change (err e) m h = Change.untouched e
    guarded-Change (ok u) m h = h refl

    renamed-Change :
        (found taken : Option (List ℕ)) (bytes : List ℕ)
        → Permitted sha256 o op b source destination bytes
        → found ≡ some bytes
        → taken ≡ none
        → Change sha256 o op b source destination
            (rename_no_replace o b.id source destination found taken)
    renamed-Change found taken bytes p e f =
        rw e (rw f (unfold rename_no_replace in rename_file-Change bytes o.rename p))

    pub move-Change :
        Change sha256 o op b source destination (move sha256 o op b source destination)
    unfolding move
    move-Change = guarded-Change _ _ λ h.
        let (bytes, p) = move-Permitted h in
        synced-Change _ (renamed-Change _ _ bytes p p.found p.free)

    verify_unlink-granted :
        (found : Option (List ℕ)) (u : Unit {0})
        → verify_unlink sha256 o op b found ≡ ok u
        → (op.execution_committed ≡ true) ⊎ (o.checkpoint ≡ none)
    unfolding verify_unlink check_permission unless
    verify_unlink-granted none u h = absurd (ground arith)
    verify_unlink-granted (some bytes) u h = ground arith

    erase-Permitted :
        permit_erase sha256 o op b (find_file b.id source) (find_file b.id destination) ≡ ok tt
        → (bytes : List ℕ) × Permitted sha256 o op b source destination bytes
    unfolding permit_erase
    erase-Permitted h =
        let (u, valid, r1) =
          >>=-eq-ok (verify_source sha256 o b (find_file b.id source) (find_file b.id destination))
            _ h in
        let (bytes, found, free, size, digest) = verify_source-valid _ _ u valid in
        (
          bytes,
          record {
            found = found;
            free = free;
            size = size;
            digest = digest;
            permission = verify_unlink-granted _ tt r1;
          },
        )

    unlinked-Change :
        (r : Result (Unit {0}))
        → (r ≡ ok tt
            → Change sha256 o op b source destination (record {
              problem = o.sync;
              source = remove_file b.id source;
              destination = destination;
            }))
        → Change sha256 o op b source destination (unlinked o b.id source destination r)
    unfolding unlinked
    unlinked-Change (err e) h = Change.untouched e
    unlinked-Change (ok u) h = h refl

    pub erase-Change :
        op.kind ≡ purge
        → Change sha256 o op b source destination (erase sha256 o op b source destination)
    unfolding erase
    erase-Change k =
        unlinked-Change _ λ h. let (bytes, p) = erase-Permitted h in Change.erased o.sync bytes p k
