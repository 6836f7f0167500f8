-- ===== src/Lifecycle/Updates.antt =====
-- The updates of backups that the operations make, and the edges that they follow.
use onlybackup.Prelude.{
  ◌+◌, ◌≤◌, String, ◌*◌, sym, str_iff, ◌≡◌, refl, true, ◌&&◌, ◌==◌, string_eq, arith, ok, Error,
  update, inr,
}
use onlybackup.Model.Types.{
  Instant, second, Status, deleting, quarantined, purging, Backup, Kind, quarantine, purge, recover,
  status_eq, same_status_iff,
}
use onlybackup.Catalog.Tables.{Db}
use onlybackup.Store.Rules.{transition}
use onlybackup.Store.Confirm.{quarantine_minimum, apply_result, restore, purge_not_before}
use mathlib.Core.Path.{subst}
use onlybackup.Lifecycle.Edge
use onlybackup.Lifecycle.Edge.{Follows, Follows-edge, Follows-refl}
use onlybackup.Lifecycle.Rows.{Keeps, Keeps-update, Keeps-of_eq}

-- the status that a test `b.id == id && b.status == from` finds
pub status_of_test :
    (b : Backup) (id : String) (from : Status)
    → (b.id == id && b.status == from) ≡ true
    → b.status ≡ from
status_of_test b id from h = (same_status_iff b.status from).0 (ground arith)

id_of_test :
    (b : Backup) (id : String) (from : Status) → (b.id == id && b.status == from) ≡ true → b.id ≡ id
id_of_test b id from h = (str_iff b.id id).0 (ground arith)

pub transition-Keeps :
    {P : String → Instant → Type 0} (id : String) (from : Status) (f : Backup → Backup) (e : Error)
    (db db' : Db)
    → transition id from f e db ≡ ok db'
    → ((b : Backup) → b.id ≡ id → b.status ≡ from → Follows P b (f b))
    → Keeps P db.backups db'.backups
transition-Keeps id from f e db db' h follows =
    let changed : db'.backups ≡ update (λ b. b.id == id && b.status == from) f db.backups =
      unfold transition in ground arith in
    rw changed (
      Keeps-update (λ b. b.id == id && b.status == from) f db.backups
        λ b t. follows b (id_of_test b id from t) (status_of_test b id from t))

-- the time that a confirmed quarantine writes
isolated_held : (now : Instant) → now + quarantine_minimum ≤ purge_not_before now * second
unfolding purge_not_before
isolated_held now = ground arith

pub apply_result-Keeps :
    {P : String → Instant → Type 0} (kind : Kind) (id : String) (now : Instant) (e : Error)
    (db db' : Db)
    → (kind ≡ quarantine → P id now)
    → apply_result kind id now e db ≡ ok db'
    → Keeps P db.backups db'.backups
unfolding apply_result
apply_result-Keeps {P} quarantine id now e db db' isolates h =
    transition-Keeps {P = P} id deleting _ e db db' h λ b i s.
      Follows-edge b _ deleting (refl, refl, refl, refl, refl, refl) s Edge.isolate
        (λ h q. (now, subst (λ x. P x now) (sym i) (isolates refl), refl, isolated_held now))
apply_result-Keeps purge id now e db db' isolates h =
    transition-Keeps id purging _ e db db' h λ b i s.
      Follows-edge b _ purging (refl, refl, refl, refl, refl, refl) s Edge.erase (λ h. ground arith)
apply_result-Keeps recover id now e db db' isolates h =
    transition-Keeps id quarantined _ e db db' h λ b i s.
      Follows-edge b _ quarantined (refl, refl, refl, refl, refl, refl) s Edge.recover
        (λ h. ground arith)

pub restore-Keeps :
    {P : String → Instant → Type 0} (kind : Kind) (id : String) (db db' : Db)
    → restore kind id db ≡ ok db'
    → Keeps P db.backups db'.backups
unfolding restore
restore-Keeps quarantine id db db' h = transition-Keeps id deleting _ _ db db' h λ b i s.
    Follows-edge b _ deleting (refl, refl, refl, refl, refl, refl) s Edge.give_back
      (λ h. ground arith)
restore-Keeps purge id db db' h = transition-Keeps id purging _ _ db db' h λ b i s.
    Follows-edge b _ purging (refl, refl, refl, refl, refl, refl) s Edge.spare (λ h q. h (inr s))
restore-Keeps recover id db db' h = Keeps-of_eq (cc)
