-- ===== src/Policy/Protection.antt =====
-- backupTimeForPolicy and RetentionProtected of internal/policy/policy.go; backupTime of
-- internal/store/retention.go has the same body.
pub mod Civil
use onlybackup.Prelude.{
  ℕ, ◌-◌, ◌*◌, ◌≤◌, ◌<◌, String, ◌≡◌, Bool, true, false, ◌||◌, not, Option, none, some, ltb,
  if◌then◌else◌, Result, ok, err, refused, arith,
}
use onlybackup.Model.Types.{Instant, Received, unset, stamped, malformed, Backup, second}
use onlybackup.Catalog.Tables.{Location}

abbrev pub minimum_days : ℕ
minimum_days = 7

abbrev pub time_of : Received → ℕ → Instant
time_of (stamped t) started_at = t
time_of _ started_at = started_at * second

abbrev pub backup_time : Backup → Instant
backup_time b = time_of b.received_at b.started_at

-- localMidnight
unfoldable pub local_midnight : Location → Instant → Instant
local_midnight loc t = loc.date (loc.day t) 0

-- `!at.Before(localMidnight(now).AddDate(0, 0, -days))`: AddDate keeps the time of day. A cutoff before
-- 1970 lies before every time of the catalogue.
unfoldable pub not_before_cutoff : Location → Instant → ℕ → Instant → Bool
unfolding local_midnight
not_before_cutoff loc now days at =
    let midnight = local_midnight loc now in
    if ltb (loc.day midnight) days
    then true
    else not (ltb at (loc.date (loc.day midnight - days) (loc.clock midnight)))

protected_in : Option Location → Instant → ℕ → Instant → Result Bool
protected_in none now days at = err (refused "unknown time zone")
protected_in (some loc) now days at = ok (not_before_cutoff loc now days at)

unfoldable pub retention_protected :
    (String → Option Location) → Instant → Instant → String → ℕ → Result Bool
unfolding protected_in not_before_cutoff
retention_protected load at now timezone days =
    if ltb days minimum_days || ltb 365000 days
    then err (refused "minimo di conservazione non valido")
    else protected_in (load timezone) now days at
