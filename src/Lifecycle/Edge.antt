-- ===== src/Lifecycle/Edge.antt =====
-- The state machine of backups.status, and the relation of a row of backups to what a transaction makes of it.
use mathlib.Core.Path.{subst}
use onlybackup.Prelude.{sym, ◌≡◌, ◌≢◌, refl, ◌⊎◌, inl, inr, String, ◌+◌, ◌*◌, ◌≤◌}
use onlybackup.Model.Types.{
  Instant, unix, second, Status, receiving, complete, failed, deleting, quarantined, purging,
  deleted, Backup,
}
use onlybackup.Store.Confirm.{quarantine_minimum}

pub data Edge : Status → Status → Type 0 where
  finish : Edge receiving complete
  give_up : Edge receiving failed
  retry : Edge failed receiving
  choose : Edge complete deleting
  give_back : Edge deleting complete
  isolate : Edge deleting quarantined
  condemn : Edge quarantined purging
  spare : Edge purging quarantined
  recover : Edge quarantined complete
  erase : Edge purging deleted

-- A row in quarantine, or taken from it for a purge, was isolated at an instant for which `P` holds, and may
-- not be purged before the minimum of 48 hours after that instant.
abbrev pub IsHeld : (String → Instant → Type 0) → Backup → Type 0
IsHeld P b =
    (b.status ≡ quarantined) ⊎ (b.status ≡ purging)
    → (t : Instant) × P b.id t
      × (b.quarantined_at ≡ unix t)
      × (t + quarantine_minimum ≤ b.purge_not_before * second)

-- One transaction moves a row along one edge at most, and keeps its identity, owner and content; `P` is about the
-- confirmations of a quarantine, by the deposit and the instant.
pub record Follows (P : String → Instant → Type 0) (a b : Backup) : Type 0 where
  pub id : b.id ≡ a.id
  pub key_id : b.key_id ≡ a.key_id
  pub size : b.size ≡ a.size
  pub sha256 : b.sha256 ≡ a.sha256
  pub metadata : b.metadata ≡ a.metadata
  pub idempotency_key : b.idempotency_key ≡ a.idempotency_key
  pub status : (b.status ≡ a.status) ⊎ Edge a.status b.status
  pub held : IsHeld P a → IsHeld P b

pub Follows-refl : {P : String → Instant → Type 0} (a : Backup) → Follows P a a
Follows-refl a = record {
  id = refl;
  key_id = refl;
  size = refl;
  sha256 = refl;
  metadata = refl;
  idempotency_key = refl;
  status = inl refl;
  held = λ h. h;
}

-- a row that a deposit adds
abbrev pub IsNew : Backup → Type 0
IsNew b = b.status ≡ receiving

-- Nothing leads out of `deleted`.
pub Edge-deleted : {s : Status} → ¬ Edge deleted s
Edge-deleted e = leave e refl
  where
    leave : {s t : Status} → Edge s t → s ≢ deleted
    leave finish h = cc
    leave give_up h = cc
    leave retry h = cc
    leave choose h = cc
    leave give_back h = cc
    leave isolate h = cc
    leave condemn h = cc
    leave spare h = cc
    leave recover h = cc
    leave erase h = cc

-- A change that keeps the identity and content, from a row whose status is `s`.
pub Follows-edge :
    {P : String → Instant → Type 0} (a b : Backup) (s : Status)
    → (b.id ≡ a.id)
      × (b.key_id ≡ a.key_id)
      × (b.size ≡ a.size)
      × (b.sha256 ≡ a.sha256)
      × (b.metadata ≡ a.metadata)
      × (b.idempotency_key ≡ a.idempotency_key)
    → a.status ≡ s
    → Edge s b.status
    → (IsHeld P a → IsHeld P b)
    → Follows P a b
Follows-edge a b s same e edge held = record {
  id = same.0;
  key_id = same.1;
  size = same.2;
  sha256 = same.3;
  metadata = same.4;
  idempotency_key = same.5;
  status = inr (subst (λ x. Edge x b.status) (sym e) edge);
  held = held;
}
