-- ===== src/Store/Keys.antt =====
-- PutProfile, CreateKey, Assign and Quota of internal/store/store.go. The identifier and the token that
-- CreateKey draws are arguments. In the schema a key's token hash is unique and its profile must exist.
pub mod Totals
use onlybackup.Prelude.{
  ℕ, ◌+◌, ◌≡◌, refl, arith, ◌*◌, ◌-◌, String, Bool, true, false, ◌&&◌, ◌||◌, Option, none, some,
  List, [], ◌∷◌, ◌++◌, ltb, leb, ◌==◌, nat_eq, string_eq, if◌then◌else◌, Result, ok, err, refused,
  constraint, no_rows, from_option, ensure, refuse_if, ◌>>=◌, ◌>>◌, select, count, sum, any, update,
}
use onlybackup.Model.Types.{
  Instant, unix, hour, Profile, Key, Backup, receiving, complete, deleting, quarantined, purging,
  status_eq,
}
use onlybackup.Model.Text.{codes, byte_len, is_blank}
use onlybackup.Model.Profiles.{validate_profile}
use onlybackup.Catalog.Tables.{Db, Environment}
use onlybackup.Store.Reserve.{used_bytes, active_uploads, attempts_since}

profile_error : Option String → Result (Unit {0})
profile_error none = ok tt
profile_error (some message) = err (refused message)

upsert_profile : Profile → List Profile → List Profile
upsert_profile p rows =
    if any (λ r. r.name == p.name) rows
    then update (λ r. r.name == p.name) (λ _. p) rows
    else rows ++ p ∷ []

-- PutProfile
unfoldable pub put_profile : Profile → Db → Result Db
unfolding profile_error upsert_profile
put_profile p db = do
  profile_error (validate_profile p)
  ok (record db { profiles = upsert_profile p db.profiles })

-- CreateKey; the answer has the token beside the key
unfoldable pub create_key :
    Environment → String → String → String → String → Db → Result ((Key × String) × Db)
create_key env name profile id token db = do
  refuse_if (is_blank name || ltb 255 (byte_len (codes name)))
      (refused "nome chiave obbligatorio, massimo 255 byte")
  refuse_if (any (λ k. k.id == id) db.keys) (constraint "keys.id")
  refuse_if (any (λ k. k.token_hash == env.hash token) db.keys) (constraint "keys.token_hash")
  ensure (any (λ p. p.name == profile) db.profiles) (constraint "keys.profile")
  let k : Key = record {
    id = id;
    name = name;
    token_hash = env.hash token;
    profile = profile;
    revoked = false;
  }
  ok ((k, token), record db { keys = db.keys ++ k ∷ [] })

-- Assign
unfoldable pub assign : String → String → Db → Result Db
assign id profile db = do
  ensure (any (λ k. k.id == id) db.keys) no_rows
  ensure (any (λ p. p.name == profile) db.profiles) (constraint "keys.profile")
  ok (record db { keys = update (λ k. k.id == id) (λ k. record k { profile = profile }) db.keys })

pub record Quota : Type 0 where
  pub profile : Profile
  pub used : ℕ
  pub reserved : ℕ
  pub active : ℕ
  pub attempts : ℕ

-- the bytes of a key that are stored, and those that are being received
unfoldable pub stored_bytes : String → List Backup → ℕ
stored_bytes key_id =
    sum
      (λ b.
        b.key_id == key_id
        && (b.status == complete
            || b.status == deleting
            || b.status == quarantined
            || b.status == purging))
      (λ b. b.size)

unfoldable pub received_bytes : String → List Backup → ℕ
received_bytes key_id = sum (λ b. b.key_id == key_id && b.status == receiving) (λ b. b.size)

-- Quota, for a catalogue of the present schema
unfoldable pub quota : String → Instant → Db → Result Quota
quota key_id now db = do
  k ← from_option (select (λ k. k.id == key_id) db.keys) no_rows
  p ← from_option (select (λ p. p.name == k.profile) db.profiles) no_rows
  ok (record {
    profile = p;
    used = stored_bytes key_id db.backups;
    reserved = received_bytes key_id db.backups;
    active = active_uploads key_id db.backups;
    attempts = attempts_since key_id (unix (now - 24 * hour)) db.attempts;
  })
