-- ===== src/Store/Grants.antt =====
-- The last permission before files are touched: what ValidateOperation has checked.
use onlybackup.Prelude.{
  ℕ, ◌+◌, String, ◌≡◌, ◌≢◌, true, false, ◌&&◌, not, some, ◌≤◌, refl, ap, ◌∙◌, Bool, if◌then◌else◌,
  update, ==_refl, leb, ◌==◌, nat_eq, string_eq, ok, refused, retention_blocked, ticket_refused,
  arith, >>=-eq-ok, refuse_if-ok, ensure-ok, from_option-ok, ensure, refuse_if, select, str_iff,
}
use onlybackup.Model.Types.{
  Instant, unix, Backup, Key, Operation, authorized, MaintenanceLease, kind_eq, state_eq,
  same_state_iff,
}
use onlybackup.Policy.Protection.{backup_time, retention_protected}
use onlybackup.Catalog.Tables.{Db, Environment, is_blocked}
use onlybackup.Store.Lease.{validate_lease, is_current}
use onlybackup.Store.Resolve.{can_retry}
use onlybackup.Store.Rules.{
  find_backup, find_key, has_id, check_retention_minimum, retention_days_for, is_receiving,
  update_operation,
}
use onlybackup.Store.Repeat.{select-update, validate_lease-same}
use onlybackup.Store.Copies.{minimum_old}
use onlybackup.Store.Permit.{
  find_operation, unit_if, check_key, is_destructive, check_policy, holds_ticket, commit_execution,
  validate_operation,
}

-- Who may execute an operation: the holder of the valid lease, with the ticket that the authorization gave.
pub record Presented (env : Environment) (op : Operation) (ticket : String)
    (lease : MaintenanceLease) (now : Instant) (db : Db) : Type 0 where
  pub lease_valid : is_current lease now db.lease ≡ true
  pub state : op.state ≡ authorized
  pub issued : op.ticket_hash ≢ ""
  pub ticket_matches : op.ticket_hash ≡ env.hash ticket
  pub generation : op.lease_generation ≡ lease.generation

-- What a destructive operation satisfies before it is committed.
pub record Permitted (env : Environment) (op : Operation) (now : Instant) (db : Db) : Type 0 where
  pub b : Backup
  pub k : Key
  pub found : select (has_id op.backup_id) db.backups ≡ some b
  pub owner : select (λ k. k.id == b.key_id) db.keys ≡ some k
  pub active : k.revoked ≡ false
  pub unblocked : (is_blocked db.automation && not (can_retry op now db)) ≡ false
  pub quiet : is_receiving db ≡ false
  pub old :
      retention_protected env.load_location
        (backup_time b)
        now
        db.automation.timezone
        (retention_days_for b.key_id db)
      ≡ ok false

presented :
    (env : Environment) (op : Operation) (ticket : String) (lease : MaintenanceLease)
    (now : Instant) (db : Db) (u : Unit {0})
    → validate_lease lease now db ≡ ok u
    → holds_ticket env op ticket lease ≡ true
    → Presented env op ticket lease now db
unfolding validate_lease holds_ticket
presented env op ticket lease now db u h k = record {
  lease_valid = ground arith;
  state = ground arith;
  issued = λ e. ground (arith, str_iff op.ticket_hash "");
  ticket_matches = ground (arith, str_iff op.ticket_hash (env.hash ticket));
  generation = ground arith;
}

check_policy-found :
    (env : Environment) (op : Operation) (now : Instant) (db : Db) (u : Unit {0})
    → check_policy env op now db ≡ ok u
    → is_destructive op ≡ true
    → (b : Backup) × (k : Key) × (select (has_id op.backup_id) db.backups ≡ some b)
      × (select (λ k. k.id == b.key_id) db.keys ≡ some k)
      × (k.revoked ≡ false)
      × ((is_blocked db.automation && not (can_retry op now db)) ≡ false)
      × (check_retention_minimum env op.backup_id now db ≡ ok tt)
unfolding check_policy
check_policy-found env op now db u h d =
    let (u1, clear, h1) =
      >>=-eq-ok
        (refuse_if (is_blocked db.automation && is_destructive op && not (can_retry op now db))
          retention_blocked)
        _ h in
    let (u2, minimum, h2) =
      >>=-eq-ok (unit_if (is_destructive op) (check_retention_minimum env op.backup_id now db)) _
        h1 in
    let keyed : check_key op db ≡ ok u = unfold unit_if in ground arith in
    let (b, found, h3) = >>=-eq-ok (find_backup op.backup_id db) _ (unfold check_key in keyed) in
    let (k, owner, h4) = >>=-eq-ok (find_key b.key_id db) _ h3 in
    (
      b,
      k,
      from_option-ok _ _ b found,
      from_option-ok _ _ k owner,
      refuse_if-ok _ _ u h4,
      ground (arith, refuse_if-ok _ _ u1 clear),
      unfold unit_if in ground arith,
    )

commit-IsPermitted :
    (env : Environment) (op : Operation) (now : Instant) (db db' : Db)
    → commit_execution env op now db ≡ ok db'
    → is_destructive op ≡ true
    → Permitted env op now db
unfolding commit_execution
commit-IsPermitted env op now db db' h d =
    let (u1, revision, h1) =
      >>=-eq-ok
        (ensure (op.revision == db.automation.model_revision && leb op.authorized_at (unix now + 1))
          ticket_refused)
        _ h in
    let (u2, policy, h2) = >>=-eq-ok (check_policy env op now db) _ h1 in
    let (u3, quiet, h3) =
      >>=-eq-ok
        (refuse_if (is_destructive op && is_receiving db)
          (refused "upload in corso: operazione fisica rinviata"))
        _ h2 in
    let (b, k, found, owner, active, clear, minimum) =
      check_policy-found env op now db u2 policy d in
    record {
      b = b;
      k = k;
      found = found;
      owner = owner;
      active = active;
      unblocked = clear;
      quiet = ground (arith, refuse_if-ok _ _ u3 quiet);
      old = minimum_old env op.backup_id now db b tt found minimum;
    }

-- The operation as a validation leaves it.
abbrev pub as_committed : Operation → Operation
as_committed o = record o { execution_committed = true }

commit-fresh :
    (env : Environment) (op : Operation) (now : Instant) (db db' : Db)
    → commit_execution env op now db ≡ ok db'
    → (op.revision ≡ db.automation.model_revision) × (op.authorized_at ≤ unix now + 1)
unfolding commit_execution
commit-fresh env op now db db' h =
    let (u1, revision, h1) =
      >>=-eq-ok
        (ensure (op.revision == db.automation.model_revision && leb op.authorized_at (unix now + 1))
          ticket_refused)
        _ h in
    let both = ensure-ok _ _ u1 revision in (ground (arith, both), ground (arith, both))

commit-writes :
    (env : Environment) (op : Operation) (now : Instant) (db db' : Db)
    → commit_execution env op now db ≡ ok db'
    → (db'.operations
        ≡ update (λ o. o.id == op.id && o.state == authorized) as_committed db.operations)
      × (db'.lease ≡ db.lease)
unfolding commit_execution update_operation
commit-writes env op now db db' h =
    let (u1, revision, h1) =
      >>=-eq-ok
        (ensure (op.revision == db.automation.model_revision && leb op.authorized_at (unix now + 1))
          ticket_refused)
        _ h in
    let (u2, policy, h2) = >>=-eq-ok (check_policy env op now db) _ h1 in
    let (u3, quiet, h3) =
      >>=-eq-ok
        (refuse_if (is_destructive op && is_receiving db)
          (refused "upload in corso: operazione fisica rinviata"))
        _ h2 in
    ground arith

committed_row :
    (env : Environment) (id : ℕ) (op : Operation) (now : Instant) (db db' : Db)
    → select (λ o. o.id == id) db.operations ≡ some op
    → op.state ≡ authorized
    → commit_execution env op now db ≡ ok db'
    → find_operation id db' ≡ ok (as_committed op)
committed_row env id op now db db' row state done =
    let (ops, lease) = commit-writes env op now db db' done in
    let moved =
      select-update (λ o. o.id == id) (λ o. o.id == op.id && o.state == authorized) as_committed
        db.operations op (λ y. refl) row in
    let mine = ==_refl op.id in
    let open_still = (same_state_iff op.state authorized).1 state in
    rw ops (rw moved (ground (arith, mine, open_still)))

-- A validation of a committed operation by the holder of its ticket changes nothing.
validate_again :
    (env : Environment) (id : ℕ) (ticket : String) (lease : MaintenanceLease) (now : Instant)
    (db db' : Db) (op : Operation)
    → validate_lease lease now db ≡ ok tt
    → db'.lease ≡ db.lease
    → find_operation id db' ≡ ok op
    → holds_ticket env op ticket lease ≡ true
    → op.execution_committed ≡ true
    → validate_operation env id ticket lease now db' ≡ ok db'
unfolding validate_operation
validate_again env id ticket lease now db db' op valid same found held done =
    rw (validate_lease-same lease now db db' same) (rw valid (rw found (rw held (rw done refl))))

validated_row :
    (env : Environment) (id : ℕ) (ticket : String) (lease : MaintenanceLease) (now : Instant)
    (db db' : Db) (op : Operation) (committed : Bool)
    → op.execution_committed ≡ committed
    → find_operation id db ≡ ok op
    → holds_ticket env op ticket lease ≡ true
    → (if committed then ok db else commit_execution env op now db) ≡ ok db'
    → (find_operation id db' ≡ ok (as_committed op)) × (db'.lease ≡ db.lease)
validated_row env id ticket lease now db db' op true c found held h =
    let same : db' ≡ db = ground arith in
    rw same (found ∙ ap (λ x. ok (record op { execution_committed = x })) c, refl)
validated_row env id ticket lease now db db' op false c found held h =
    let state : op.state ≡ authorized =
      (same_state_iff op.state authorized).0 (unfold holds_ticket in ground arith) in
    (
      committed_row env id op now db db' (from_option-ok _ _ op found) state h,
      (commit-writes env op now db db' h).1,
    )

-- A validation that succeeds was asked by the holder of the valid maintenance lease with the ticket of the
-- authorized operation, under the generation it was issued to. If the execution was not yet committed, then
-- the operation is of the current revision and was authorized at most a second in the future, and, unless it
-- is a recovery, the backup exists and is past the minimum of retention, its key is not revoked, the
-- automation is not blocked (or the operation may be retried after a restart) and no upload is in progress.
-- Afterwards the operation is as before but committed, and the same call is accepted again and changes
-- nothing.
pub validate_operation-IsPermitted :
    (env : Environment) (id : ℕ) (ticket : String) (lease : MaintenanceLease) (now : Instant)
    (db db' : Db)
    → validate_operation env id ticket lease now db ≡ ok db'
    → (op : Operation) × (select (λ o. o.id == id) db.operations ≡ some op)
      × Presented env op ticket lease now db
      × (op.execution_committed ≡ false
          → (op.revision ≡ db.automation.model_revision)
            × (op.authorized_at ≤ unix now + 1)
            × (is_destructive op ≡ true → Permitted env op now db))
      × (find_operation id db' ≡ ok (as_committed op))
      × (validate_operation env id ticket lease now db' ≡ ok db')
unfolding validate_operation
validate_operation-IsPermitted env id ticket lease now db db' h =
    let (u1, valid, h1) = >>=-eq-ok (validate_lease lease now db) _ h in
    let (op, found, h2) = >>=-eq-ok (find_operation id db) _ h1 in
    let (u3, held, h3) =
      >>=-eq-ok (ensure (holds_ticket env op ticket lease) ticket_refused) _ h2 in
    let ticketed = ensure-ok _ _ u3 held in
    let (row, same) =
      validated_row env id ticket lease now db db' op op.execution_committed refl found ticketed
        h3 in
    (
      op,
      from_option-ok _ _ op found,
      presented env op ticket lease now db u1 valid ticketed,
      λ fresh.
          let first : commit_execution env op now db ≡ ok db' = ground arith in
          let (revision, timely) = commit-fresh env op now db db' first in
          (revision, timely, λ d. commit-IsPermitted env op now db db' first d),
      row,
      validate_again env id ticket lease now db db' (as_committed op) valid same row
          (unfold holds_ticket in ticketed) refl,
    )
