-- ===== src/Store/Keys/Totals.antt =====
-- The quota that is shown to an administrator, and the one that a reservation enforces.
use onlybackup.Prelude.{◌+◌, ◌-◌, ◌*◌, String, ◌≡◌, refl, List, [], ◌∷◌, arith, ok, sum}
use onlybackup.Model.Types.{Instant, unix, hour, Backup}
use onlybackup.Catalog.Tables.{Db}
use onlybackup.Store.Reserve.{used_bytes, active_uploads, attempts_since}
use onlybackup.Store.Keys.{Quota, quota, stored_bytes, received_bytes}

stored-received :
    (key_id : String) (bs : List Backup)
    → stored_bytes key_id bs + received_bytes key_id bs ≡ used_bytes key_id bs
unfolding stored_bytes received_bytes used_bytes sum
stored-received key_id [] = refl
stored-received key_id (b ∷ bs) = ground (arith, stored-received key_id bs)

-- The bytes that Quota reports as stored and as being received add up to those that a reservation counts
-- against the total, and its active uploads and attempts are those that a reservation compares with the limits.
pub quota-IsConsistent :
    (key_id : String) (now : Instant) (db : Db) (q : Quota)
    → quota key_id now db ≡ ok q
    → (q.used + q.reserved ≡ used_bytes key_id db.backups)
      × (q.active ≡ active_uploads key_id db.backups)
      × (q.attempts ≡ attempts_since key_id (unix (now - 24 * hour)) db.attempts)
quota-IsConsistent key_id now db q h =
    let used : q.used ≡ stored_bytes key_id db.backups = unfold quota in ground arith in
    let reserved : q.reserved ≡ received_bytes key_id db.backups = unfold quota in ground arith in
    (
      omega (arith, used, reserved, stored-received key_id db.backups),
      unfold quota in ground arith,
      unfold quota in ground arith,
    )
