-- ===== src/Store/Reserve/Limits.antt =====
-- The limits of a profile after the admission of a deposit.
use onlybackup.Prelude.{
  ℕ, ◌+◌, ◌-◌, ◌*◌, ◌≤◌, ◌<◌, String, ◌≡◌, ◌≢◌, refl, inl, inr, Bool, true, ◌&&◌, not, some, List,
  [], ◌∷◌, ◌++◌, ltb, leb, ◌==◌, nat_eq, string_eq, ok, arith, count, sum, update, select, keep,
  Bool-cases, Option-cases, All,
}
use onlybackup.Model.Types.{Instant, unix, hour, receiving, Backup, Profile, status_eq}
use onlybackup.Catalog.Tables.{Db, Attempt}
use onlybackup.Catalog.Rows.{sum-append, count-append}
use onlybackup.Store.Reserve.{
  Request, Plan, fresh, again, answered, new_backup, store_deposit, lookup_plan, check_limits,
  used_bytes, active_uploads, attempts_since, add_attempt, occupies, is_retry_of,
}

distribute : (n c : ℕ) → n * (1 + c) ≡ n + n * c
distribute n c = omega arith

module _ {ℓ} {A : Type ℓ} where
  -- A sum grows by at most the new value of each changed row.
  pub sum-update_bound :
      (q p : A → Bool) (g : A → ℕ) (f : A → A) (n : ℕ) (xs : List A)
      → All (λ x. p x ≡ true → g (f x) ≤ n) xs
      → sum q g (update p f xs) ≤ sum q g xs + n * count p xs
  unfolding sum update count
  sum-update_bound q p g f n [] h = omega arith
  sum-update_bound q p g f n (x ∷ xs) h =
      grind (arith, h.0, sum-update_bound q p g f n xs h.1, distribute n (count p xs))

  select-positive :
      (p q : A → Bool) (b : A) (xs : List A) → select p xs ≡ some b → q b ≡ true → 0 < count q xs
  unfolding select count
  select-positive p q b [] h t = cc
  select-positive p q b (x ∷ xs) h t = ground (arith, select-positive p q b xs)

  count_none :
      (q : A → Bool) (b : A) (xs : List A) → count q xs ≤ 0 → All (λ x. q x ≡ true → x ≡ b) xs
  unfolding count
  count_none q b [] h = tt
  count_none q b (x ∷ xs) h = (λ t. ground arith, count_none q b xs (ground arith))

  -- A test that passes once passes only the row that is found.
  pub select-sole :
      (p q : A → Bool) (b : A) (xs : List A)
      → select p xs ≡ some b
      → q b ≡ true
      → count q xs ≤ 1
      → All (λ x. q x ≡ true → x ≡ b) xs
  unfolding select count
  select-sole p q b [] h t c = tt
  select-sole p q b (x ∷ xs) h t c = elim (Bool-cases (p x)) [
    | inl hit ↦
        let e : x ≡ b = ground arith in
        let q_true : q x ≡ true = rw e t in (λ _. e, count_none q b xs (ground arith))
    | inr miss ↦
        let rest : select p xs ≡ some b = ground arith in
        let found = select-positive p q b xs rest t in
        (λ u. ground (arith, found), select-sole p q b xs rest t (ground arith))
  ]

  pub count-update_most :
      (q p : A → Bool) (f : A → A) (xs : List A) → count q (update p f xs) ≤ count q xs + count p xs
  unfolding count update
  count-update_most q p f [] = omega arith
  count-update_most q p f (x ∷ xs) = ground (arith, count-update_most q p f xs)

  pub count-append_one :
      (q : A → Bool) (xs : List A) (x : A) → count q (xs ++ x ∷ []) ≤ count q xs + 1
  unfolding count
  count-append_one q xs x = ground (arith, count-append q xs (x ∷ []))

  pub count-keep : (q p : A → Bool) (xs : List A) → count q (keep p xs) ≤ count q xs
  unfolding count keep
  count-keep q p [] = omega arith
  count-keep q p (x ∷ xs) = ground (arith, count-keep q p xs)

-- What check_limits has established.
pub limits_hold :
    (p : Profile) (key_id : String) (size : ℕ) (now : Instant) (db : Db) (u : Unit {0})
    → check_limits p key_id size now db ≡ ok u
    → (size ≤ p.max_backup_bytes)
      × (used_bytes key_id db.backups + size ≤ p.total_bytes)
      × (active_uploads key_id db.backups + 1 ≤ p.concurrent)
      × (attempts_since key_id (unix (now - 24 * hour)) db.attempts + 1 ≤ p.uploads_per_day)
unfolding check_limits
limits_hold p key_id size now db u h = ground arith

-- The primary key of backups.
abbrev pub IsKeyed : List Backup → Type 0
IsKeyed bs = (id : String) → count (λ b. b.id == id) bs ≤ 1

-- The row that a repeated request finds has the size of the request.
pub again_size :
    (r : Request) (key_id : String) (db : Db) (id : String)
    → lookup_plan r key_id db ≡ ok (again id)
    → (b : Backup) × (select (is_retry_of key_id r.idempotency_key) db.backups ≡ some b)
      × (b.id ≡ id)
      × (b.size ≡ r.size)
unfolding lookup_plan
again_size r key_id db id h =
    elim (Option-cases (select (is_retry_of key_id r.idempotency_key) db.backups)) [
      | inl e ↦ ground arith
      | inr (b, e) ↦ (b, e, ground arith, ground arith)
    ]

-- What the limits promise of the key of a deposit.
pub record WithinLimits (p : Profile) (key_id : String) (now : Instant) (db : Db) : Type 0 where
  pub stored : used_bytes key_id db.backups ≤ p.total_bytes
  pub active : active_uploads key_id db.backups ≤ p.concurrent
  pub recent : attempts_since key_id (unix (now - 24 * hour)) db.attempts ≤ p.uploads_per_day

pub attempts_grow :
    (key_id id : String) (now : Instant) (rows : List Attempt)
    → attempts_since key_id (unix (now - 24 * hour)) (add_attempt key_id id now rows)
      ≤ attempts_since key_id (unix (now - 24 * hour)) rows + 1
unfolding attempts_since add_attempt
attempts_grow key_id id now rows =
    let q = λ (a : Attempt). a.key_id == key_id && leb (unix (now - 24 * hour)) a.attempted_at in
    let p =
      λ (a : Attempt). not (a.key_id == key_id && ltb a.attempted_at (unix (now - 24 * hour))) in
    omega (arith, count-append_one q (keep p rows) _, count-keep q p rows)

pub store_fresh :
    (plan : Plan) (r : Request) (fresh_id key_id : String) (now : Instant) (db db' : Db)
    → ((id : String) → plan ≢ again id)
    → store_deposit plan r fresh_id key_id now db ≡ ok db'
    → (db'.backups ≡ db.backups ++ new_backup r fresh_id key_id now ∷ [])
      × (db'.attempts ≡ add_attempt key_id fresh_id now db.attempts)
unfolding store_deposit
store_fresh fresh r fresh_id key_id now db db' other h = ground arith
store_fresh (answered b) r fresh_id key_id now db db' other h = ground arith
store_fresh (again id) r fresh_id key_id now db db' other h = ground (arith, other id refl)

-- A new row is counted once.
pub fresh_within :
    (p : Profile) (r : Request) (key_id id : String) (now : Instant) (db db' : Db)
    → (used_bytes key_id db.backups + r.size ≤ p.total_bytes)
      × (active_uploads key_id db.backups + 1 ≤ p.concurrent)
      × (attempts_since key_id (unix (now - 24 * hour)) db.attempts + 1 ≤ p.uploads_per_day)
    → db'.backups ≡ db.backups ++ new_backup r id key_id now ∷ []
    → db'.attempts ≡ add_attempt key_id id now db.attempts
    → WithinLimits p key_id now db'
unfolding used_bytes active_uploads new_backup sum
fresh_within p r key_id id now db db' room bs as' =
    let grown = attempts_grow key_id id now db.attempts in
    let added =
      sum-append (λ b. b.key_id == key_id && occupies b.status) (λ b. b.size) db.backups
        (new_backup r id key_id now ∷ []) in
    record {
      stored = rw bs (ground (arith, added, room.0));
      active = rw bs (
          omega (
            arith,
            count-append_one (λ b. b.key_id == key_id && b.status == receiving) db.backups
                (new_backup r id key_id now),
            room.1,
          ));
      recent = rw as' (omega (arith, grown, room.2));
    }
