-- ===== src/Store/Repeat.antt =====
-- A confirmation that is repeated with the same ticket and lease.
use onlybackup.Prelude.{
  ℕ, String, ◌≡◌, refl, ◌∙◌, ap, Bool, true, ◌&&◌, some, List, [], ◌∷◌, ◌==◌, nat_eq, string_eq,
  if◌then◌else◌, Error, ok, arith, select, update, >>=-eq-ok, ensure, from_option-ok, ensure-ok,
  Bool-cases, inl, inr, ticket_refused, ==_refl,
}
use onlybackup.Model.Types.{
  Instant, unix, Operation, Kind, quarantine, purge, recover, authorized, confirmed,
  MaintenanceLease, state_eq, same_state_iff,
}
use onlybackup.Catalog.Tables.{Db, Environment}
use onlybackup.Catalog.Rows.{select-passes}
use onlybackup.Store.Lease.{validate_lease}
use onlybackup.Store.Rules.{update_operation, transition}
use onlybackup.Store.Permit.{find_operation, holds_ticket}
use onlybackup.Store.Confirm.{
  apply_result, mark_confirmed, finish, confirm_again, confirm_done, confirm_first,
  confirm_operation,
}
use onlybackup.Store.Frame.{resolve_operation-KeepsWork}

-- The row that a table lookup finds after an update that keeps its test.
pub select-update {ℓ} :
    {A : Type ℓ} (p q : A → Bool) (f : A → A) (xs : List A) (x : A)
    → ((y : A) → p (f y) ≡ p y)
    → select p xs ≡ some x
    → select p (update q f xs) ≡ some (if q x then f x else x)
unfolding select update
select-update p q f [] x same h = cc
select-update p q f (y ∷ ys) x same h = ground (arith, same y, select-update p q f ys x same)

apply_result-rest :
    (kind : Kind) (id : String) (now : Instant) (e : Error) (db db' : Db)
    → apply_result kind id now e db ≡ ok db'
    → (db'.operations ≡ db.operations) × (db'.lease ≡ db.lease)
unfolding apply_result transition
apply_result-rest quarantine id now e db db' h = ground arith
apply_result-rest purge id now e db db' h = ground arith
apply_result-rest recover id now e db db' h = ground arith

mark_confirmed-writes :
    (op : Operation) (e : String) (now : Instant) (db db' : Db)
    → mark_confirmed op e now db ≡ ok db'
    → (db'.operations
        ≡ update
            (λ o. o.id == op.id && o.state == authorized)
            (λ o. record o { state = confirmed; completed_at = unix now; error = e })
            db.operations)
      × (db'.lease ≡ db.lease)
unfolding mark_confirmed update_operation
mark_confirmed-writes op e now db db' h = ground arith

confirm_done-writes :
    (op : Operation) (now : Instant) (db db' : Db)
    → confirm_done op now db ≡ ok db'
    → (db'.operations
        ≡ update
            (λ o. o.id == op.id && o.state == authorized)
            (λ o. record o { state = confirmed; completed_at = unix now; error = "" })
            db.operations)
      × (db'.lease ≡ db.lease)
unfolding confirm_done finish
confirm_done-writes op now db db' h =
    let (db1, changed, h1) = >>=-eq-ok (apply_result op.kind op.backup_id now _ db) _ h in
    let (db2, marked, h2) = >>=-eq-ok (mark_confirmed op "" now db1) _ h1 in
    let w = resolve_operation-KeepsWork op.id now true db2 db' h2 in
    let (ops, lease) = mark_confirmed-writes op "" now db1 db2 marked in
    let (ops0, lease0) = apply_result-rest op.kind op.backup_id now _ db db1 changed in
    (
      w.operations
          ∙ ops
          ∙ ap
              (update (λ o. o.id == op.id && o.state == authorized)
                (λ o. record o { state = confirmed; completed_at = unix now; error = "" }))
              ops0,
      w.lease ∙ lease ∙ lease0,
    )

-- The operation as a confirmation leaves it.
abbrev as_confirmed : Instant → Operation → Operation
as_confirmed now o = record o { state = confirmed; completed_at = unix now; error = "" }

confirmed_row :
    (env : Environment) (id : ℕ) (ticket : String) (lease : MaintenanceLease) (now : Instant)
    (db db' : Db) (op : Operation)
    → find_operation id db ≡ ok op
    → holds_ticket env op ticket lease ≡ true
    → confirm_done op now db ≡ ok db'
    → find_operation id db' ≡ ok (as_confirmed now op)
unfolding holds_ticket
confirmed_row env id ticket lease now db db' op found held done =
    let row = from_option-ok (select (λ o. o.id == id) db.operations) _ op found in
    let passes = select-passes _ db.operations op row in
    let (ops, _) = confirm_done-writes op now db db' done in
    let moved =
      select-update (λ o. o.id == id) (λ o. o.id == op.id && o.state == authorized)
        (as_confirmed now) db.operations op (λ y. refl) row in
    let mine = ==_refl op.id in rw ops (rw moved (ground arith))

confirm_again-holds :
    (env : Environment) (op : Operation) (ticket : String) (lease : MaintenanceLease)
    (now : Instant) (db : Db)
    → holds_ticket env op ticket lease ≡ true
    → confirm_again env (as_confirmed now op) ticket lease db ≡ ok db
unfolding holds_ticket confirm_again
confirm_again-holds env op ticket lease now db h = ground arith

pub validate_lease-same :
    (lease : MaintenanceLease) (now : Instant) (db db' : Db)
    → db'.lease ≡ db.lease
    → validate_lease lease now db' ≡ validate_lease lease now db
unfolding validate_lease
validate_lease-same lease now db db' e = rw e refl

-- The answer to a repetition, by the operation that it finds.
repeat_of :
    (env : Environment) (id : ℕ) (ticket detail : String) (lease : MaintenanceLease) (now : Instant)
    (db db' : Db) (op : Operation)
    → validate_lease lease now db ≡ ok tt
    → db'.lease ≡ db.lease
    → find_operation id db' ≡ ok op
    → op.state ≡ confirmed
    → confirm_again env op ticket lease db' ≡ ok db'
    → confirm_operation env id ticket true detail lease now db' ≡ ok db'
unfolding confirm_operation
repeat_of env id ticket detail lease now db db' op valid same found state again =
    rw (validate_lease-same lease now db db' same) (rw valid (rw found (ground arith)))

-- A confirmation of success that was accepted is accepted again with the same ticket and lease, and then
-- changes nothing.
pub confirm_operation-IsIdempotent :
    (env : Environment) (id : ℕ) (ticket detail again_detail : String) (lease : MaintenanceLease)
    (now : Instant) (db db' : Db)
    → confirm_operation env id ticket true detail lease now db ≡ ok db'
    → confirm_operation env id ticket true again_detail lease now db' ≡ ok db'
unfolding confirm_operation confirm_first
confirm_operation-IsIdempotent env id ticket detail again_detail lease now db db' h =
    let (u, valid, h1) = >>=-eq-ok (validate_lease lease now db) _ h in
    let (op, found, h2) = >>=-eq-ok (find_operation id db) _ h1 in
    elim (Bool-cases (op.state == confirmed)) [
      | inl settled ↦
          let last : confirm_again env op ticket lease db ≡ ok db' = ground arith in
          let same : db' ≡ db = unfold confirm_again in ground arith in
          let answer : confirm_again env op ticket lease db ≡ ok db = rw same at last in
          rw same (
            repeat_of env id ticket again_detail lease now db db op valid refl found
              ((same_state_iff op.state confirmed).0 settled) (ground arith))
      | inr pending ↦
          let first : confirm_first env op ticket true detail lease now db ≡ ok db' =
            ground arith in
          let (u2, held, done) =
            >>=-eq-ok (ensure (holds_ticket env op ticket lease) ticket_refused) _ first in
          let ticketed = ensure-ok _ _ u2 held in
          let (_, lease_kept) = confirm_done-writes op now db db' done in
          repeat_of env id ticket again_detail lease now db db' (as_confirmed now op) valid
            lease_kept (confirmed_row env id ticket lease now db db' op found ticketed done) refl
            (confirm_again-holds env op ticket lease now db' ticketed)
    ]
