-- ===== src/Lifecycle/Reach.antt =====
-- Catalogues that sequences of transactions reach.
use onlybackup.Prelude.{
  String, ◌≡◌, refl, ◌∙◌, Bool, some, List, [], ◌∷◌, arith, All, inl, inr, ◌⊎◌, select, Bool-cases,
}
use onlybackup.Model.Types.{Instant, Status, deleted, Backup}
use onlybackup.Catalog.Tables.{Db, Environment}
use onlybackup.Catalog.Rows.{Evolves, done, row}
use onlybackup.Lifecycle.Edge.{Edge, Edge-deleted, Follows, IsHeld, IsNew}
use onlybackup.Lifecycle.Rows.{Keeps}
use onlybackup.Lifecycle.Steps.{Step, Confirms}
use onlybackup.Lifecycle.History.{Step-Keeps}
use mathlib.Core.Path.{subst}

-- Transactions one after the other.
pub data Reach (env : Environment) : Db → Db → Type 0 where
  here : {db : Db} → Reach env db db
  then_step : {a b c : Db} → Reach env a b → Step env b c → Reach env a c

-- Among the transactions is one that confirms a quarantine of the deposit `id` at the instant `t`.
pub data Confirmed {env : Environment}
    : (a b : Db) → Reach env a b → String → Instant → Type 0 where
  last_step :
      {a b c : Db} {r : Reach env a b} {s : Step env b c} {id : String} {t : Instant}
      → Confirms b c s id t
      → Confirmed a c (then_step r s) id t
  earlier :
      {a b c : Db} {r : Reach env a b} {s : Step env b c} {id : String} {t : Instant}
      → Confirmed a b r id t
      → Confirmed a c (then_step r s) id t

abbrev Always : String → Instant → Type 0
Always id t = Unit

-- A deposit after any number of transactions.
pub record Remains (a b : Backup) : Type 0 where
  pub id : b.id ≡ a.id
  pub key_id : b.key_id ≡ a.key_id
  pub size : b.size ≡ a.size
  pub sha256 : b.sha256 ≡ a.sha256
  pub metadata : b.metadata ≡ a.metadata
  pub idempotency_key : b.idempotency_key ≡ a.idempotency_key
  pub gone : a.status ≡ deleted → b.status ≡ deleted

abbrev pub Anything : Backup → Type 0
Anything b = Unit

All-Anything : (bs : List Backup) → All Anything bs
All-Anything [] = tt
All-Anything (b ∷ bs) = (tt, All-Anything bs)

Remains-refl : (bs : List Backup) → Evolves Remains Anything bs bs
Remains-refl [] = done tt
Remains-refl (b ∷ bs) =
    row
      (record {
        id = refl;
        key_id = refl;
        size = refl;
        sha256 = refl;
        metadata = refl;
        idempotency_key = refl;
        gone = λ h. h;
      })
      (Remains-refl bs)

no_edge : {s t : Status} → s ≡ deleted → (t ≡ s) ⊎ Edge s t → t ≡ deleted
no_edge h (inl e) = e ∙ h
no_edge {s} {t} h (inr e) = elim (Edge-deleted (subst (λ x. Edge x t) h e)) [ ]

Remains-Follows :
    {P : String → Instant → Type 0} {a b c : Backup} → Remains a b → Follows P b c → Remains a c
Remains-Follows r f = record {
  id = f.id ∙ r.id;
  key_id = f.key_id ∙ r.key_id;
  size = f.size ∙ r.size;
  sha256 = f.sha256 ∙ r.sha256;
  metadata = f.metadata ∙ r.metadata;
  idempotency_key = f.idempotency_key ∙ r.idempotency_key;
  gone = λ h. no_edge (r.gone h) f.status;
}

Remains-Keeps :
    {P : String → Instant → Type 0} {xs ys zs : List Backup}
    → Evolves Remains Anything xs ys
    → Keeps P ys zs
    → Evolves Remains Anything xs zs
Remains-Keeps {P} {xs} {ys} {zs} (done _) k = done (All-Anything zs)
Remains-Keeps (row r e) (row f k) = row (Remains-Follows r f) (Remains-Keeps e k)

-- No deposit is ever lost, renamed, given to another key or altered in size, digest or description by any
-- sequence of transactions, and one that is deleted stays deleted.
pub Reach-Remains :
    {env : Environment} {db db' : Db}
    → Reach env db db'
    → Evolves Remains Anything db.backups db'.backups
Reach-Remains {env} {db} here = Remains-refl db.backups
Reach-Remains (then_step r s) =
    Remains-Keeps (Reach-Remains r) (Step-Keeps {P = Always} s (λ id t c. tt))

new_IsHeld : (P : String → Instant → Type 0) (b : Backup) → IsNew b → IsHeld P b
new_IsHeld P b h q = absurd (ground arith)

All-new : (P : String → Instant → Type 0) (bs : List Backup) → All IsNew bs → All (IsHeld P) bs
All-new P [] h = tt
All-new P (b ∷ bs) h = (new_IsHeld P b h.0, All-new P bs h.1)

Keeps-IsHeld :
    {P : String → Instant → Type 0} {xs ys : List Backup}
    → Keeps P xs ys
    → All (IsHeld P) xs
    → All (IsHeld P) ys
Keeps-IsHeld {P} {xs} {ys} (done new) h = All-new P ys new
Keeps-IsHeld (row f k) h = (f.held h.0, Keeps-IsHeld k h.1)

-- The hold of 48 hours, from a confirmation among the transactions, is an invariant.
pub Reach-IsHeld :
    {P : String → Instant → Type 0} {env : Environment} {db db' : Db} (r : Reach env db db')
    → ((id : String) (t : Instant) → Confirmed db db' r id t → P id t)
    → All (IsHeld P) db.backups
    → All (IsHeld P) db'.backups
Reach-IsHeld here says h = h
Reach-IsHeld (then_step r s) says h =
    Keeps-IsHeld (Step-Keeps s (λ id t c. says id t (last_step c)))
      (Reach-IsHeld r (λ id t c. says id t (earlier c)) h)

pub All-select {ℓ κ} :
    {A : Type ℓ} (P : A → Type κ) (p : A → Bool) (xs : List A) (x : A)
    → All P xs
    → select p xs ≡ some x
    → P x
unfolding select
All-select P p [] x all h = cc
All-select P p (y ∷ ys) x all h = elim (Bool-cases (p y)) [
  | inl hit ↦ let e : y ≡ x = ground arith in subst P e all.0
  | inr miss ↦ All-select P p ys x all.1 (ground arith)
]
