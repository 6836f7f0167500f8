-- ===== src/Store/Reserve/Admit.antt =====
-- The limits of a profile after any call of ReserveIdempotentChecked.
use onlybackup.Prelude.{
  ℕ, zero, suc, sym, Option-cases, ◌+◌, ◌-◌, ◌*◌, ◌≤◌, String, ◌≡◌, ◌⊎◌, inl, inr, Bool, true, ◌&&◌,
  some, List, [], ◌∷◌, ◌==◌, nat_eq, string_eq, ok, arith, count, update, select, >>=-eq-ok,
  from_option-ok, from_option, unauthorized, All, str_iff,
}
use onlybackup.Model.Types.{
  Instant, unix, hour, receiving, complete, failed, Backup, Profile, Key, status_eq,
}
use onlybackup.Catalog.Tables.{Db, Environment}
use onlybackup.Store.Reserve.{
  Request, Plan, fresh, again, answered, DiskCheck, admit, reserve, restart, new_backup,
  store_deposit, validate_request, find_active_key, find_profile, lookup_plan, check_limits,
  check_disk_space, deposit_id, used_bytes, active_uploads, attempts_since, add_attempt, occupies,
  is_retry_of,
}
use onlybackup.Store.Reserve.Limits.{
  sum-update_bound, count-update_most, select-sole, limits_hold, IsKeyed, again_size, WithinLimits,
  attempts_grow, store_fresh, fresh_within,
}

count-both {ℓ} :
    {A : Type ℓ} (p q : A → Bool) (xs : List A) → count (λ x. p x && q x) xs ≤ count p xs
unfolding count
count-both p q [] = omega arith
count-both p q (x ∷ xs) = ground (arith, count-both p q xs)

-- the rows that a repetition restarts have the size of the request
restarted_sizes :
    (r : Request) (id : String) (now : Instant) (b : Backup) (bs : List Backup)
    → b.size ≡ r.size
    → All (λ x. (x.id == id) ≡ true → x ≡ b) bs
    → All (λ x. (x.id == id && x.status == failed) ≡ true → (restart id now x).size ≤ r.size) bs
unfolding restart
restarted_sizes r id now b [] e h = tt
restarted_sizes r id now b (x ∷ bs) e h = (
  λ t. let same : x ≡ b = h.0 (ground arith) in ground (arith, e),
  restarted_sizes r id now b bs e h.1,
)

again_within :
    (p : Profile) (r : Request) (key_id id : String) (now : Instant) (db db' : Db)
    → IsKeyed db.backups
    → lookup_plan r key_id db ≡ ok (again id)
    → (used_bytes key_id db.backups + r.size ≤ p.total_bytes)
      × (active_uploads key_id db.backups + 1 ≤ p.concurrent)
      × (attempts_since key_id (unix (now - 24 * hour)) db.attempts + 1 ≤ p.uploads_per_day)
    → db'.backups ≡ update (λ b. b.id == id && b.status == failed) (restart id now) db.backups
    → db'.attempts ≡ add_attempt key_id id now db.attempts
    → WithinLimits p key_id now db'
unfolding used_bytes active_uploads
again_within p r key_id id now db db' keyed plan room bs as' =
    let (b, found, same_id, same_size) = again_size r key_id db id plan in
    let here : (b.id == id) ≡ true = (str_iff b.id id).1 same_id in
    let sole = select-sole _ (λ x. x.id == id) b db.backups found here (keyed id) in
    let hit = λ (x : Backup). x.id == id && x.status == failed in
    let once = count-both (λ x. x.id == id) (λ x. x.status == failed) db.backups in
    let unique = keyed id in
    let few : count hit db.backups ≤ 1 = omega (arith, once, unique) in
    let more =
      sum-update_bound (λ x. x.key_id == key_id && occupies x.status) hit (λ x. x.size)
        (restart id now) r.size db.backups (restarted_sizes r id now b db.backups same_size sole) in
    let active =
      count-update_most (λ x. x.key_id == key_id && x.status == receiving) hit (restart id now)
        db.backups in
    record {
      stored = rw bs (scaled r.size (count hit db.backups) _ _ _ few more (room.0));
      active = rw bs (omega (arith, active, few, room.1));
      recent = rw as' (omega (arith, attempts_grow key_id id now db.attempts, room.2));
    }
  where
    scaled : (n c new old total : ℕ) → c ≤ 1 → new ≤ old + n * c → old + n ≤ total → new ≤ total
    scaled n zero new old total h k l = omega (arith, k, l)
    scaled n (suc c) new old total h k l =
        let z : c ≡ 0 = omega (arith, h) in
        let k' : new ≤ old + n * suc 0 = rw z at k in omega (arith, k', l)

-- A request that is answered from the catalogue finds a complete deposit of the same content.
answered_by :
    (r : Request) (key_id : String) (db : Db) (b : Backup)
    → lookup_plan r key_id db ≡ ok (answered b)
    → (select (is_retry_of key_id r.idempotency_key) db.backups ≡ some b)
      × (b.status ≡ complete)
      × (b.size ≡ r.size)
      × (b.sha256 ≡ r.digest)
unfolding lookup_plan
answered_by r key_id db b h =
    elim (Option-cases (select (is_retry_of key_id r.idempotency_key) db.backups)) [
      | inl e ↦ ground arith
      | inr (c, e) ↦ ground (arith, str_iff c.sha256 r.digest)
    ]

-- A deposit that is admitted, and one that is answered from the catalogue.
abbrev pub Admitted : Request → String → Profile → Instant → Db → Backup → Db → Type 0
Admitted r key_id p now db b db' = (r.size ≤ p.max_backup_bytes) × WithinLimits p key_id now db'

abbrev pub Answered : Request → String → Db → Backup → Db → Type 0
Answered r key_id db b db' =
    (db' ≡ db)
    × (select (is_retry_of key_id r.idempotency_key) db.backups ≡ some b)
    × (b.status ≡ complete)
    × (b.size ≡ r.size)
    × (b.sha256 ≡ r.digest)

admit-WithinLimits :
    (plan : Plan) (r : Request) (p : Profile) (key_id fresh_id : String) (now : Instant)
    (check : DiskCheck) (db : Db) (b : Backup) (db' : Db)
    → IsKeyed db.backups
    → lookup_plan r key_id db ≡ ok plan
    → admit plan r p key_id fresh_id now check db ≡ ok (b, db')
    → Answered r key_id db b db' ⊎ Admitted r key_id p now db b db'
unfolding admit
admit-WithinLimits (answered c) r p key_id fresh_id now check db b db' keyed plan h =
    let same : c ≡ b = ground arith in
    let kept : db' ≡ db = ground arith in
    let facts = answered_by r key_id db b (rw same at plan) in
    inl (kept, facts.0, facts.1, facts.2, facts.3)
admit-WithinLimits fresh r p key_id fresh_id now check db b db' keyed plan h =
    let (u, limits, h1) = >>=-eq-ok (check_limits p key_id r.size now db) _ h in
    let (v, disk, h2) = >>=-eq-ok (check_disk_space check r.size db) _ h1 in
    let (db1, stored, h3) =
      >>=-eq-ok (store_deposit fresh r fresh_id key_id now db)
        (λ d. ok (new_backup r (deposit_id fresh fresh_id) key_id now, d)) h2 in
    let e : db1 ≡ db' = ground arith in
    let facts = limits_hold p key_id r.size now db u limits in
    let (bs, as') = store_fresh fresh r fresh_id key_id now db db1 (λ id. λ q. cc) stored in
    inr (
      facts.0,
      rw (sym e) (fresh_within p r key_id fresh_id now db db1 (facts.1, facts.2, facts.3) bs as'),
    )
admit-WithinLimits (again id) r p key_id fresh_id now check db b db' keyed plan h =
    let (u, limits, h1) = >>=-eq-ok (check_limits p key_id r.size now db) _ h in
    let (v, disk, h2) = >>=-eq-ok (check_disk_space check r.size db) _ h1 in
    let (db1, stored, h3) =
      >>=-eq-ok (store_deposit (again id) r fresh_id key_id now db)
        (λ d. ok (new_backup r (deposit_id (again id) fresh_id) key_id now, d)) h2 in
    let e : db1 ≡ db' = ground arith in
    let facts = limits_hold p key_id r.size now db u limits in
    let bs : db1.backups
        ≡ update (λ b. b.id == id && b.status == failed) (restart id now) db.backups =
      unfold store_deposit in ground arith in
    let as' : db1.attempts ≡ add_attempt key_id id now db.attempts =
      unfold store_deposit in ground arith in
    inr (
      facts.0,
      rw (sym e)
          (again_within p r key_id id now db db1 keyed plan (facts.1, facts.2, facts.3) bs as'),
    )

-- A deposit is reserved only with the token of an active key with a profile. Either the request is answered
-- from the catalogue, which does not change, with a complete deposit of the same idempotency key, size and
-- digest; or its size is within the profile's and afterwards the bytes, the concurrent uploads and the
-- attempts of 24 hours of the key are all within the limits of the profile. The catalogue's identifiers are
-- unique, as its primary key says.
pub reserve-WithinLimits :
    (env : Environment) (r : Request) (fresh_id : String) (now : Instant) (check : DiskCheck)
    (db : Db) (b : Backup) (db' : Db)
    → IsKeyed db.backups
    → reserve env r fresh_id now check db ≡ ok (b, db')
    → (k : Key) × (p : Profile) × (find_active_key env r.token db ≡ some k)
      × (find_profile k db ≡ ok p)
      × (Answered r k.id db b db' ⊎ Admitted r k.id p now db b db')
unfolding reserve
reserve-WithinLimits env r fresh_id now check db b db' keyed h =
    let (u, valid, h1) = >>=-eq-ok (validate_request r) _ h in
    let (k, key, h2) = >>=-eq-ok (from_option (find_active_key env r.token db) unauthorized) _ h1 in
    let (p, profile, h3) = >>=-eq-ok (find_profile k db) _ h2 in
    let (plan, planned, h4) = >>=-eq-ok (lookup_plan r k.id db) _ h3 in
    (
      k,
      p,
      from_option-ok _ _ k key,
      profile,
      admit-WithinLimits plan r p k.id fresh_id now check db b db' keyed planned h4,
    )
