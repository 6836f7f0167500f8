-- ===== src/Store/Lease.antt =====
-- The maintenance lease of internal/store/retention.go: AcquireMaintenanceLease, ValidateMaintenanceLease,
-- validateMaintenanceLeaseTx and ReleaseMaintenanceLease.
pub mod Order
use onlybackup.Prelude.{
  ℕ, zero, ◌+◌, ◌^◌, ◌-◌, String, Bool, true, ◌&&◌, ◌||◌, not, ltb, leb, ◌==◌, nat_eq, string_eq,
  if◌then◌else◌, Result, ok, err, refused, lease_refused, ensure, refuse_if, ◌>>=◌, ◌>>◌,
}
use onlybackup.Model.Types.{Instant, unix, MaintenanceLease}
use onlybackup.Model.Text.{is_blank}
use onlybackup.Catalog.Tables.{Db}

abbrev pub max_generation : ℕ
max_generation = 2 ^ 63 - 1

-- WHERE expires_at<=? AND generation<9223372036854775807
acquire_new : String → Instant → ℕ → MaintenanceLease → Result MaintenanceLease
acquire_new owner now duration held =
    if leb held.expires_at (unix now) && ltb held.generation max_generation
    then ok (record {
      owner = owner;
      generation = held.generation + 1;
      expires_at = unix (now + duration);
    })
    else err lease_refused

-- WHERE owner=? AND generation=? AND expires_at>?
renew : String → ℕ → Instant → ℕ → MaintenanceLease → Result MaintenanceLease
renew owner generation now duration held =
    if held.owner == owner && held.generation == generation && ltb (unix now) held.expires_at
    then ok (record held { expires_at = unix (now + duration) })
    else err lease_refused

-- the update of the row; a generation of 0 asks for a new lease
unfoldable pub acquire_row : String → ℕ → Instant → ℕ → MaintenanceLease → Result MaintenanceLease
unfolding acquire_new renew
acquire_row owner generation now duration held =
    if is_blank owner || duration == 0
    then err (refused "lease non valida")
    else if generation == 0
    then acquire_new owner now duration held
    else renew owner generation now duration held

-- AcquireMaintenanceLease, for a duration that is not negative
unfoldable pub acquire_maintenance_lease :
    String → ℕ → Instant → ℕ → Db → Result (MaintenanceLease × Db)
acquire_maintenance_lease owner generation now duration db = do
  lease ← acquire_row owner generation now duration db.lease
  ok (lease, record db { lease = lease })

-- SELECT COUNT(*) … WHERE owner=? AND generation=? AND expires_at>?
unfoldable pub is_current : MaintenanceLease → Instant → MaintenanceLease → Bool
is_current lease now held =
    held.owner == lease.owner
    && held.generation == lease.generation
    && ltb (unix now) held.expires_at

-- ValidateMaintenanceLease
unfoldable pub validate_maintenance_lease : MaintenanceLease → Instant → Db → Result (Unit {0})
validate_maintenance_lease lease now db = ensure (is_current lease now db.lease) lease_refused

-- validateMaintenanceLeaseTx
unfoldable pub validate_lease : MaintenanceLease → Instant → Db → Result (Unit {0})
validate_lease lease now db = do
  refuse_if (is_blank lease.owner || lease.generation == 0) lease_refused
  ensure (is_current lease now db.lease) lease_refused

-- the row that ReleaseMaintenanceLease leaves
unfoldable pub release_row : MaintenanceLease → MaintenanceLease → MaintenanceLease
release_row lease held =
    if held.owner == lease.owner && held.generation == lease.generation
    then record held { owner = ""; expires_at = 0 }
    else held

-- ReleaseMaintenanceLease
unfoldable pub release_maintenance_lease : MaintenanceLease → Db → Db
release_maintenance_lease lease db = record db { lease = release_row lease db.lease }
