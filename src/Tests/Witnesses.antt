-- ===== src/Tests/Witnesses.antt =====
-- The theorems applied to the catalogues of the story and to small values.
use onlybackup.Prelude.{
  ◌+◌, ◌*◌, ◌/◌, ◌≤◌, ◌<◌, ◌≢◌, ◌↔◌, ◌⊎◌, ◌≡◌, refl, true, false, none, some, [], ok, select, count,
  sum, any, arith, ◌^◌, ◌-◌, ◌==◌, nat_eq, string_eq,
}
use onlybackup.Model.Types.{
  Instant, Backup, Profile, Key, Operation, manual, MaintenanceLease, hour, unix, regular,
}
use onlybackup.Catalog.Tables.{Db, is_blocked}
use onlybackup.Catalog.Rows.{Evolves}
use onlybackup.Tests.World.{
  env, on_day, empty, first_id, second_id, key_id, held, request, value, automation,
}
use onlybackup.Tests.Story.{
  first_reserved, first_reserved_ok, first_reserved_row, first_complete_ok, second_reserved_ok,
  second_reserved_row, second_complete, second_complete_ok, chosen, chosen_ok, chosen_row,
  leased_ok, granted, granted_ok, validated, validated_ok, isolated, isolated_ok, condemned,
  condemned_ok, condemned_row,
}
use onlybackup.Store.Rules.{has_id, is_copy, is_stable_copy}
use onlybackup.Store.Reserve.{
  find_active_key, find_profile, used_bytes, active_uploads, attempts_since,
}
use onlybackup.Store.Reserve.Limits.{IsKeyed}
use onlybackup.Store.Reserve.Admit.{Answered, Admitted, reserve-WithinLimits}
use onlybackup.Store.Copies.{request_quarantine-leaves_copy}
use onlybackup.Store.Purges.{request_purge-leaves_copy}
use onlybackup.Store.Permit.{is_destructive, find_operation, validate_operation}
use onlybackup.Store.Grants.{as_committed, Presented, Permitted, validate_operation-IsPermitted}
use onlybackup.Store.Confirm.{confirm_operation}
use onlybackup.Store.Repeat.{confirm_operation-IsIdempotent}
use onlybackup.Store.Lease.{acquire_row, is_current}
use onlybackup.Store.Lease.Order.{stay, acquire-excludes}
use onlybackup.Store.Blocks.{
  IsSuspended, pause_retention-IsSuspended, begin_relearn-IsSuspended, open_anomaly_at-IsSuspended,
  resume_retention-IsSafe,
}
use onlybackup.Store.Automation.{pause_retention, begin_relearn, resume_retention, resumed}
use onlybackup.Store.Anomaly.{
  open_anomaly_at, open_new, is_excludable, covers, anomaly_excluded, anomaly_blocks,
  block_for_anomaly, recent_open, is_recent, blocking_anomaly_count,
}
use onlybackup.Store.Mail.{queue_mail, anomaly_mail}
use onlybackup.Store.Resolve.{is_authorized}
use onlybackup.Store.Keys.{Quota, quota, stored_bytes, received_bytes}
use onlybackup.Store.Keys.Totals.{quota-IsConsistent}
use onlybackup.Policy.Warning.{is_quarantine_margin_warning}
use onlybackup.Policy.Capacity.{
  Filesystem, Sizes, used_basis_points, filesystem_bytes, share, minimum_release,
}
use onlybackup.Policy.Capacity.Bounds.{
  share-IsExact, minimum_release-IsCeiling, used_basis_points-IsBounded, filesystem_bytes-IsBounded,
}
use onlybackup.Policy.Protection.{not_before_cutoff}
use onlybackup.Policy.Protection.Civil.{cet, cet-IsRegular, cutoff_iff}
use onlybackup.Model.Bytes.{parse_bytes}
use onlybackup.Model.Bytes.Sizes.{parse_bytes_iff, Denotes}
use onlybackup.Model.Text.{codes, is_blank, decimal}
use onlybackup.Lifecycle.Steps
use onlybackup.Lifecycle.Steps.{
  Step, reserved, completed, quarantine_requested, lease_acquired, authorized, confirmed,
}
use onlybackup.Lifecycle.Reach.{Reach, here, then_step, Remains, Anything, Reach-Remains}

-- the story up to the confirmed quarantine
abbrev chosen_step : Step env second_complete chosen
chosen_step = quarantine_requested first_id manual "root" "full" (on_day 1000) chosen_row chosen_ok

abbrev until_chosen : Reach env empty chosen
until_chosen =
    then_step
      (then_step
        (then_step
          (then_step
            (then_step here
              (reserved request first_id (on_day 900) none first_reserved_row first_reserved_ok))
            (completed first_id (on_day 900) [] first_complete_ok))
          (reserved request second_id (on_day 950) none second_reserved_row second_reserved_ok))
        (completed second_id (on_day 950) [] second_complete_ok))
      chosen_step

abbrev isolated_step : Step env validated isolated
isolated_step = confirmed 1 "ticket" true "" held (on_day 1000) isolated_ok

abbrev until_isolated : Reach env empty isolated
until_isolated =
    then_step
      (then_step
        (then_step
          (then_step until_chosen (lease_acquired "daemon" 0 (on_day 1000) hour held leased_ok))
          (authorized 1 "ticket" held (on_day 1000) granted_ok))
        (Steps.validated 1 "ticket" held (on_day 1000) validated_ok))
      isolated_step

Reach-Remains_example : Evolves Remains Anything empty.backups isolated.backups
Reach-Remains_example = Reach-Remains until_isolated

request_quarantine-leaves_copy_example :
    (b : Backup) × (select (has_id first_id) second_complete.backups ≡ some b)
    × (1 ≤ count (is_copy b.key_id chosen.anomalies) chosen.backups)
request_quarantine-leaves_copy_example =
    request_quarantine-leaves_copy env first_id manual "root" "full" (on_day 1000) second_complete
      (chosen_row, chosen) chosen_ok

request_purge-leaves_copy_example :
    (b : Backup) × (select (has_id first_id) isolated.backups ≡ some b)
    × (1 ≤ count (is_stable_copy b.key_id condemned.anomalies) condemned.backups)
request_purge-leaves_copy_example =
    request_purge-leaves_copy env first_id manual "root" "full" (on_day 1002) isolated
      (condemned_row, condemned) condemned_ok

validate_operation-IsPermitted_example :
    (op : Operation) × (select (λ o. o.id == 1) granted.operations ≡ some op)
    × Presented env op "ticket" held (on_day 1000) granted
    × (op.execution_committed ≡ false
        → (op.revision ≡ granted.automation.model_revision)
          × (op.authorized_at ≤ unix (on_day 1000) + 1)
          × (is_destructive op ≡ true → Permitted env op (on_day 1000) granted))
    × (find_operation 1 validated ≡ ok (as_committed op))
    × (validate_operation env 1 "ticket" held (on_day 1000) validated ≡ ok validated)
validate_operation-IsPermitted_example =
    validate_operation-IsPermitted env 1 "ticket" held (on_day 1000) granted validated validated_ok

confirm_operation-IsIdempotent_example :
    confirm_operation env 1 "ticket" true "again" held (on_day 1000) isolated ≡ ok isolated
confirm_operation-IsIdempotent_example =
    confirm_operation-IsIdempotent env 1 "ticket" "" "again" held (on_day 1000) validated isolated
      isolated_ok

empty-IsKeyed : IsKeyed empty.backups
unfolding count
empty-IsKeyed id = omega arith

reserve-WithinLimits_example :
    (k : Key) × (p : Profile) × (find_active_key env "token" empty ≡ some k)
    × (find_profile k empty ≡ ok p)
    × (Answered request k.id empty first_reserved_row first_reserved
        ⊎ Admitted request k.id p (on_day 900) empty first_reserved_row first_reserved)
reserve-WithinLimits_example =
    reserve-WithinLimits env request first_id (on_day 900) none empty first_reserved_row
      first_reserved empty-IsKeyed first_reserved_ok

abbrev expired : MaintenanceLease
expired = record { owner = "old"; generation = 4; expires_at = 50 }

abbrev taken : MaintenanceLease
taken = record { owner = "new"; generation = 5; expires_at = 3660 }

taken_ok : acquire_row "new" 0 (60 * 1_000_000_000) hour expired ≡ ok taken
unfolding acquire_row is_blank
taken_ok = refl

acquire-excludes_example :
    (50 ≤ 60)
    × ((old : MaintenanceLease) (t t' : Instant)
        → is_current old t expired ≡ true
        → is_current old t' taken ≡ false)
acquire-excludes_example =
    acquire-excludes "new" (60 * 1_000_000_000) hour expired taken taken taken_ok stay

abbrev filesystem : Filesystem
filesystem = record { blocks = 1000; blocks_free = 300; blocks_available = 250; block_size = 4096 }

abbrev sizes : Sizes
sizes = record { total = 4096000; used = 2867200; available = 1024000 }

points_ok : used_basis_points filesystem ≡ ok 7000
unfolding used_basis_points
points_ok = refl

sizes_ok : filesystem_bytes filesystem ≡ ok sizes
unfolding filesystem_bytes used_basis_points
sizes_ok = refl

share-IsExact_example : share 123456789 8000 ≡ 123456789 * 8000 / 10000
share-IsExact_example = share-IsExact 123456789 8000 (omega arith) (omega arith)

minimum_release-IsCeiling_example : minimum_release 12345 ≡ (12345 + 9) / 10
minimum_release-IsCeiling_example = minimum_release-IsCeiling 12345

used_basis_points-IsBounded_example :
    (7000 ≤ 10000) × (300 ≤ 1000) × (0 < 1000) × (0 < 4096) × (7000 ≡ (1000 - 300) * 10000 / 1000)
used_basis_points-IsBounded_example =
    used_basis_points-IsBounded filesystem 7000 (omega arith) points_ok

filesystem_bytes-IsBounded_example :
    (4096000 ≤ 2 ^ 64 - 1)
    × (1024000 ≤ 2 ^ 64 - 1)
    × (2867200 ≤ 4096000)
    × (4096000 ≡ 1000 * 4096)
    × (1024000 ≡ 250 * 4096)
    × (2867200 + 300 * 4096 ≡ 4096000)
filesystem_bytes-IsBounded_example = filesystem_bytes-IsBounded filesystem sizes sizes_ok

cutoff_iff_example :
    (not_before_cutoff cet (on_day 100) 30 (on_day 69) ≡ false)
    ↔ (cet.day (on_day 69) + 30 < cet.day (on_day 100))
cutoff_iff_example = cutoff_iff cet cet-IsRegular (on_day 100) (on_day 69) 30 (omega arith)

pause_retention-IsSuspended_example : IsSuspended env (pause_retention "holiday" second_complete)
pause_retention-IsSuspended_example = pause_retention-IsSuspended env "holiday" second_complete

abbrev relearned : Db
relearned = value empty (begin_relearn second_complete)

relearned_ok : begin_relearn second_complete ≡ ok relearned
unfolding begin_relearn any
relearned_ok = refl

begin_relearn-IsSuspended_example : IsSuspended env relearned
begin_relearn-IsSuspended_example =
    begin_relearn-IsSuspended env second_complete relearned relearned_ok

abbrev alarmed : Db
alarmed =
    (value (false, empty) (open_anomaly_at env "k" "integrity" key_id first_id "bad" 5 6 empty)).1

alarmed_ok :
    open_anomaly_at env "k" "integrity" key_id first_id "bad" 5 6 empty ≡ ok (true, alarmed)
unfolding open_anomaly_at open_new is_excludable covers anomaly_excluded anomaly_blocks
    block_for_anomaly recent_open queue_mail anomaly_mail is_blank decimal any count
    is_quarantine_margin_warning
alarmed_ok = refl

kind_ok : is_excludable "integrity" ≡ false
unfolding is_excludable
kind_ok = refl

warning_ok : is_quarantine_margin_warning "integrity" "k" ≡ false
unfolding is_quarantine_margin_warning
warning_ok = refl

open_anomaly_at-IsSuspended_example : IsSuspended env alarmed
open_anomaly_at-IsSuspended_example =
    open_anomaly_at-IsSuspended env "k" "integrity" key_id first_id "bad" 5 6 empty alarmed
      alarmed_ok kind_ok warning_ok

abbrev paused_db : Db
paused_db = record empty {
  automation = record automation { manual_paused = true; last_check_at = 1000 * 86400 };
}

abbrev resumed_db : Db
resumed_db = record empty { automation = record automation { last_check_at = 1000 * 86400 } }

resumed_ok : resume_retention (on_day 1000) paused_db ≡ ok resumed_db
unfolding resume_retention resumed blocking_anomaly_count count any is_recent
resumed_ok = refl

resume_retention-IsSafe_example :
    (is_blocked resumed_db.automation ≡ false)
    × (blocking_anomaly_count (on_day 1000) resumed_db ≡ 0)
    × (any is_authorized resumed_db.operations ≡ false)
    × (resumed_db.automation.model_revision ≢ 0)
    × (is_recent resumed_db.automation.last_check_at (on_day 1000) ≡ true)
    × (resumed_db.automation.monitoring_state ≡ regular)
resume_retention-IsSafe_example =
    resume_retention-IsSafe (on_day 1000) paused_db resumed_db resumed_ok

abbrev totals : Quota
totals = record {
  profile = record {
    name = "S";
    total_bytes = 1000;
    max_backup_bytes = 400;
    uploads_per_day = 3;
    concurrent = 1;
  };
  used = 600;
  reserved = 0;
  active = 0;
  attempts = 1;
}

totals_ok : quota key_id (on_day 950) second_complete ≡ ok totals
unfolding quota select sum count stored_bytes received_bytes active_uploads attempts_since
totals_ok = refl

parse_bytes_iff_example :
    (parse_bytes "10GiB" ≡ ok 10737418240) ↔ Denotes (codes "10GiB") 10737418240
parse_bytes_iff_example = parse_bytes_iff "10GiB" 10737418240

quota-IsConsistent_example :
    (600 + 0 ≡ used_bytes key_id second_complete.backups)
    × (0 ≡ active_uploads key_id second_complete.backups)
    × (1 ≡ attempts_since key_id (unix (on_day 950 - 24 * hour)) second_complete.attempts)
quota-IsConsistent_example = quota-IsConsistent key_id (on_day 950) second_complete totals totals_ok
