-- ===== src/Store/Reserve.antt =====
-- ReserveIdempotentChecked of internal/store/store.go, of which Reserve and ReserveIdempotent are calls. The
-- identifier that model.NewID draws is an argument, and so is the check of the disk.
pub mod Limits
pub mod Admit
use onlybackup.Prelude.{
  ℕ, zero, ◌+◌, ◌-◌, ◌*◌, ◌^◌, String, Bool, true, false, ◌&&◌, ◌||◌, not, Option, none, some, List,
  [], ◌∷◌, ◌++◌, ltb, leb, ◌==◌, nat_eq, string_eq, if◌then◌else◌, Result, ok, err, refused,
  constraint, unauthorized, size_refused, idempotency_conflict, idempotency_in_progress,
  idempotency_unavailable, quota_exceeded, concurrent_exceeded, rate_exceeded, no_rows, from_option,
  ensure, refuse_if, ◌>>=◌, ◌>>◌, select, count, sum, any, update, keep,
}
use onlybackup.Model.Types.{
  Instant, unix, hour, Status, receiving, complete, failed, deleting, quarantined, purging, deleted,
  Received, unset, Metadata, Backup, Profile, Key, status_eq,
}
use onlybackup.Model.Validate.{validate_metadata, valid_token, valid_idempotency_key}
use onlybackup.Model.Hex.{valid_digest}
use onlybackup.Catalog.Tables.{Db, Environment, Attempt}

pub record Request : Type 0 where
  pub token : String
  pub metadata : Metadata
  pub size : ℕ
  pub digest : String
  pub idempotency_key : String

-- the checks before the transaction
metadata_error : Option String → Result (Unit {0})
metadata_error none = ok tt
metadata_error (some message) = err (refused message)

unfoldable pub validate_request : Request → Result (Unit {0})
unfolding metadata_error
validate_request r = do
  ensure (valid_token r.token) unauthorized
  metadata_error (validate_metadata r.metadata)
  refuse_if (r.size == 0 || not (valid_digest r.digest)) size_refused
  refuse_if (not (r.idempotency_key == "") && not (valid_idempotency_key r.idempotency_key))
      idempotency_conflict

-- the active key of a token, and its profile
unfoldable pub find_active_key : Environment → String → Db → Option Key
find_active_key env token db = select (λ k. k.token_hash == env.hash token && not k.revoked) db.keys

abbrev pub find_profile : Key → Db → Result Profile
find_profile k db = from_option (select (λ p. p.name == k.profile) db.profiles) unauthorized

abbrev has_key : String → Option String → Bool
has_key text none = false
has_key text (some key) = key == text

-- WHERE key_id=? AND idempotency_key=?
unfoldable pub is_retry_of : String → String → Backup → Bool
is_retry_of key_id key b = b.key_id == key_id && has_key key b.idempotency_key

abbrev same_metadata : Metadata → Metadata → Bool
same_metadata a b =
    a.description == b.description
    && a.original_name == b.original_name
    && a.content_format == b.content_format

-- What is known of an idempotency key: the request is new, it repeats a failed one, or it is answered.
pub data Plan : Type 0 where
  fresh : Plan
  again : String → Plan
  answered : Backup → Plan

plan_by_status : Status → Backup → Result Plan
plan_by_status complete b = ok (answered b)
plan_by_status receiving b = err idempotency_in_progress
plan_by_status failed b = ok (again b.id)
plan_by_status deleting b = err idempotency_unavailable
plan_by_status quarantined b = err idempotency_unavailable
plan_by_status purging b = err idempotency_unavailable
plan_by_status deleted b = err idempotency_unavailable

plan_for : Request → Backup → Result Plan
unfolding plan_by_status
plan_for r b =
    if not (b.size == r.size)
      || not (b.sha256 == r.digest)
      || not (same_metadata b.metadata r.metadata)
    then err idempotency_conflict
    else plan_by_status b.status b

plan_from : Request → Option Backup → Result Plan
plan_from r none = ok fresh
plan_from r (some b) = plan_for r b

unfoldable pub lookup_plan : Request → String → Db → Result Plan
unfolding plan_from plan_for
lookup_plan r key_id db =
    if r.idempotency_key == ""
    then ok fresh
    else plan_from r (select (is_retry_of key_id r.idempotency_key) db.backups)

-- the statuses whose bytes count against the quota of a key
abbrev pub occupies : Status → Bool
occupies s = s == receiving || s == complete || s == deleting || s == quarantined || s == purging

unfoldable pub used_bytes : String → List Backup → ℕ
used_bytes key_id = sum (λ b. b.key_id == key_id && occupies b.status) (λ b. b.size)

unfoldable pub active_uploads : String → List Backup → ℕ
active_uploads key_id = count (λ b. b.key_id == key_id && b.status == receiving)

-- upload attempts of a key since a time in seconds
unfoldable pub attempts_since : String → ℕ → List Attempt → ℕ
attempts_since key_id since = count (λ a. a.key_id == key_id && leb since a.attempted_at)

-- ReservedBytes
unfoldable pub reserved_bytes : List Backup → ℕ
reserved_bytes = sum (λ b. b.status == receiving) (λ b. b.size)

abbrev pub max_int64 : ℕ
max_int64 = 2 ^ 63 - 1

abbrev pub DiskCheck : Type 0
DiskCheck = Option (ℕ → Result (Unit {0}))

unfoldable pub check_disk_space : DiskCheck → ℕ → Db → Result (Unit {0})
check_disk_space none size db = ok tt
check_disk_space (some check) size db = do
  refuse_if (ltb (max_int64 - reserved_bytes db.backups) size)
      (refused "prenotazioni disco non valide")
  check (reserved_bytes db.backups + size)

abbrev window_start : Instant → ℕ
window_start now = unix (now - 24 * hour)

unfoldable pub check_limits : Profile → String → ℕ → Instant → Db → Result (Unit {0})
check_limits p key_id size now db = do
  refuse_if (ltb p.max_backup_bytes size) size_refused
  refuse_if
      (ltb p.total_bytes (used_bytes key_id db.backups)
        || ltb (p.total_bytes - used_bytes key_id db.backups) size)
      quota_exceeded
  refuse_if (leb p.concurrent (active_uploads key_id db.backups)) concurrent_exceeded
  refuse_if (leb p.uploads_per_day (attempts_since key_id (window_start now) db.attempts))
      rate_exceeded

-- DELETE of the attempts before the window, then INSERT of this one
unfoldable pub add_attempt : String → String → Instant → List Attempt → List Attempt
add_attempt key_id backup_id now attempts =
    keep (λ a. not (a.key_id == key_id && ltb a.attempted_at (window_start now))) attempts
    ++ record { key_id = key_id; backup_id = backup_id; attempted_at = unix now } ∷ []

stored_key : String → Option String
stored_key key = if key == "" then none else some key

-- the row of a new deposit
unfoldable pub new_backup : Request → String → String → Instant → Backup
unfolding stored_key
new_backup r id key_id now = record {
  id = id;
  status = receiving;
  size = r.size;
  sha256 = r.digest;
  received_at = unset;
  key_id = key_id;
  idempotency_key = stored_key r.idempotency_key;
  metadata = r.metadata;
  started_at = unix now;
  failure = "";
  quarantined_at = 0;
  purge_not_before = 0;
  purged_at = 0;
}

-- INSERT INTO backups, whose id is the primary key; the index on the idempotency key cannot fail here
insert_backup : Backup → Db → Result Db
insert_backup b db =
    if any (λ r. r.id == b.id) db.backups
    then err (constraint "backups.id")
    else ok (record db { backups = db.backups ++ b ∷ [] })

-- UPDATE backups SET status='receiving' … WHERE id=? AND status='failed'
unfoldable pub restart : String → Instant → Backup → Backup
restart id now b = record b {
  status = receiving;
  started_at = unix now;
  received_at = unset;
  failure = "";
}

unfoldable pub store_deposit : Plan → Request → String → String → Instant → Db → Result Db
unfolding insert_backup
store_deposit (again id) r fresh_id key_id now db = ok (record db {
  backups = update (λ b. b.id == id && b.status == failed) (restart id now) db.backups;
  attempts = add_attempt key_id id now db.attempts;
})
store_deposit _ r fresh_id key_id now db = do
  db' ← insert_backup (new_backup r fresh_id key_id now) db
  ok (record db' { attempts = add_attempt key_id fresh_id now db.attempts })

unfoldable pub deposit_id : Plan → String → String
deposit_id (again id) fresh_id = id
deposit_id _ fresh_id = fresh_id

-- a request that is not answered from the catalogue is checked against the limits and stored
unfoldable pub admit :
    Plan → Request → Profile → String → String → Instant → DiskCheck → Db → Result (Backup × Db)
unfolding store_deposit deposit_id
admit (answered b) r p key_id fresh_id now check db = ok (b, db)
admit plan r p key_id fresh_id now check db = do
  check_limits p key_id r.size now db
  check_disk_space check r.size db
  db' ← store_deposit plan r fresh_id key_id now db
  ok (new_backup r (deposit_id plan fresh_id) key_id now, db')

-- ReserveIdempotentChecked
unfoldable pub reserve :
    Environment → Request → String → Instant → DiskCheck → Db → Result (Backup × Db)
reserve env r fresh_id now check db = do
  validate_request r
  k ← from_option (find_active_key env r.token db) unauthorized
  p ← find_profile k db
  plan ← lookup_plan r k.id db
  admit plan r p k.id fresh_id now check db
