-- ===== src/Prelude/Results.antt =====
-- Errors of the program, and results that may be one. A transaction that returns an error is rolled
-- back, so a failed operation has no new catalogue.
use Prim.Native.String.{String}
use mathlib.Core.Path.{◌≡◌, refl}
use mathlib.Core.Logic.{◌⊎◌, inl, inr}
use mathlib.Core.Bool.{Bool, true, false}
use mathlib.Core.Option.{Option, none, some}

-- The package-level error values of internal/model/model.go, sql.ErrNoRows, a violated constraint
-- of the schema, and the other errors by their texts.
pub data Error : Type 0 where
  unauthorized quota_exceeded size_refused rate_exceeded concurrent_exceeded disk_full : Error
  idempotency_conflict idempotency_in_progress idempotency_unavailable : Error
  retention_blocked retention_minimum current_day last_copy too_early ticket_refused lease_refused :
      Error
  no_rows busy : Error
  constraint : String → Error
  refused : String → Error

pub data Result {ℓ} (A : Type ℓ) : Type ℓ where
  ok : A → Result A
  err : Error → Result A

-- the next step of a function, unless an error has been returned
infixl 5 ◌>>=◌
abbrev pub ◌>>=◌ {ℓ κ} : {X : Type ℓ} {Y : Type κ} → Result X → (X → Result Y) → Result Y
err problem >>= next = err problem
ok x >>= next = next x

-- the same after a check, whose answer says nothing
infixl 5 ◌>>◌
abbrev pub ◌>>◌ {ℓ} : {Y : Type ℓ} → Result (Unit {0}) → Result Y → Result Y
check >> rest = check >>= λ _. rest

-- `if !b { return …, e }`
abbrev pub ensure : Bool → Error → Result (Unit {0})
ensure true e = ok tt
ensure false e = err e

-- `if b { return …, e }`
abbrev pub refuse_if : Bool → Error → Result (Unit {0})
refuse_if true e = err e
refuse_if false e = ok tt

abbrev pub from_option {ℓ} : {A : Type ℓ} → Option A → Error → Result A
from_option none e = err e
from_option (some a) e = ok a

-- A chain that succeeds has a first step that succeeds.
pub >>=-eq-ok {ℓ κ} :
    {X : Type ℓ} {Y : Type κ} (first : Result X) (next : X → Result Y) {y : Y}
    → (first >>= next) ≡ ok y
    → (x : X) × (first ≡ ok x) × (next x ≡ ok y)
>>=-eq-ok (err problem) next h = cc
>>=-eq-ok (ok x) next h = (x, refl, h)

pub refuse_if-ok : (b : Bool) (e : Error) (u : Unit {0}) → refuse_if b e ≡ ok u → b ≡ false
refuse_if-ok true e u h = cc
refuse_if-ok false e u h = refl

pub ensure-ok : (b : Bool) (e : Error) (u : Unit {0}) → ensure b e ≡ ok u → b ≡ true
ensure-ok true e u h = refl
ensure-ok false e u h = cc

pub from_option-ok {ℓ} :
    {A : Type ℓ} (o : Option A) (e : Error) (a : A) → from_option o e ≡ ok a → o ≡ some a
from_option-ok none e a h = cc
from_option-ok (some x) e a h = cc

pub Result-cases {ℓ} :
    {A : Type ℓ} (r : Result A) → ((e : Error) × (r ≡ err e)) ⊎ ((a : A) × (r ≡ ok a))
Result-cases (ok a) = inr (a, refl)
Result-cases (err e) = inl (e, refl)
