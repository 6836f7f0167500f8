-- ===== src/Tests/Story.antt =====
-- Two deposits, of which the first is quarantined and, 48 hours later, chosen for a purge.
use onlybackup.Catalog.Tables.{is_blocked, Db}
use onlybackup.Model.Hex.{hex_decode, valid_digest, valid_id, hex_value}
use onlybackup.Model.Text.{is_blank, is_control, decimal}
use onlybackup.Model.Types.{
  Backup, Operation, manual, quarantine, purge, requested, authorized, confirmed, receiving,
  complete, deleting, quarantined, purging, unset, stamped, hour,
}
use onlybackup.Model.Validate.{validate_metadata, valid_idempotency_key, valid_token}
use onlybackup.Policy.Protection.{not_before_cutoff, local_midnight, retention_protected}
use onlybackup.Prelude.{
  ◌≡◌, refl, true, false, none, [], ◌∷◌, ok, any, count, keep, select, sum, update,
}
use onlybackup.Store.Complete.{open_findings, complete_deposit, mark_complete}
use onlybackup.Store.Confirm.{
  mark_confirmed, confirm_operation, confirm_again, confirm_done, purge_not_before, confirm_first,
  apply_result, finish,
}
use onlybackup.Store.Lease.{acquire_maintenance_lease, validate_lease, acquire_row, is_current}
use onlybackup.Store.Mail.{queue_mail}
use onlybackup.Store.Permit.{
  holds_ticket, grant, is_destructive, validate_operation, check_policy, reissue, unit_if,
  check_key, commit_execution, authorize_operation,
}
use onlybackup.Store.Request.{request_quarantine, request_purge}
use onlybackup.Store.Reserve.{
  find_active_key, check_disk_space, store_deposit, reserved_bytes, used_bytes, new_backup,
  deposit_id, add_attempt, reserve, attempts_since, restart, check_limits, lookup_plan, admit,
  is_retry_of, active_uploads, validate_request,
}
use onlybackup.Store.Resolve.{is_open_error, resolve_operation, operation_key, uncertain_key}
use onlybackup.Store.Rules.{
  check_retention_minimum, retention_days_for, is_missing, update_operation, insert_operation,
  transition, is_stable_copy, is_copy, is_receiving,
}
use onlybackup.Tests.World.{env, on_day, empty, first_id, second_id, held, request}

abbrev pub first_reserved_row : Backup
first_reserved_row = record {
  id = "00000000000000000000000000000001";
  status = receiving;
  size = 300;
  sha256 = "1111111111111111111111111111111111111111111111111111111111111111";
  received_at = unset;
  key_id = "000000000000000000000000000000aa";
  idempotency_key = none;
  metadata = record { description = "nightly"; original_name = "dump.age"; content_format = "" };
  started_at = 77760000;
  failure = "";
  quarantined_at = 0;
  purge_not_before = 0;
  purged_at = 0;
}

abbrev pub first_reserved : Db
first_reserved = record empty {
  backups =
      record {
        id = "00000000000000000000000000000001";
        status = receiving;
        size = 300;
        sha256 = "1111111111111111111111111111111111111111111111111111111111111111";
        received_at = unset;
        key_id = "000000000000000000000000000000aa";
        idempotency_key = none;
        metadata = record {
          description = "nightly";
          original_name = "dump.age";
          content_format = "";
        };
        started_at = 77760000;
        failure = "";
        quarantined_at = 0;
        purge_not_before = 0;
        purged_at = 0;
      }
      ∷ [];
  attempts =
      record {
        key_id = "000000000000000000000000000000aa";
        backup_id = "00000000000000000000000000000001";
        attempted_at = 77760000;
      }
      ∷ [];
}

pub first_reserved_ok :
    reserve env request first_id (on_day 900) none empty ≡ ok (first_reserved_row, first_reserved)
unfolding reserve validate_request find_active_key lookup_plan is_retry_of check_limits used_bytes
    active_uploads attempts_since check_disk_space reserved_bytes add_attempt new_backup
    store_deposit deposit_id restart admit validate_metadata valid_token valid_digest valid_id
    hex_decode hex_value is_blank is_control valid_idempotency_key select count sum update keep any
first_reserved_ok = refl

abbrev pub first_complete : Db
first_complete = record empty {
  backups =
      record {
        id = "00000000000000000000000000000001";
        status = complete;
        size = 300;
        sha256 = "1111111111111111111111111111111111111111111111111111111111111111";
        received_at = stamped 77760000000000000;
        key_id = "000000000000000000000000000000aa";
        idempotency_key = none;
        metadata = record {
          description = "nightly";
          original_name = "dump.age";
          content_format = "";
        };
        started_at = 77760000;
        failure = "";
        quarantined_at = 0;
        purge_not_before = 0;
        purged_at = 0;
      }
      ∷ [];
  attempts =
      record {
        key_id = "000000000000000000000000000000aa";
        backup_id = "00000000000000000000000000000001";
        attempted_at = 77760000;
      }
      ∷ [];
}

pub first_complete_ok :
    complete_deposit env first_id (on_day 900) [] first_reserved ≡ ok first_complete
unfolding complete_deposit mark_complete open_findings select count sum update keep any
first_complete_ok = refl

abbrev pub second_reserved_row : Backup
second_reserved_row = record {
  id = "00000000000000000000000000000002";
  status = receiving;
  size = 300;
  sha256 = "1111111111111111111111111111111111111111111111111111111111111111";
  received_at = unset;
  key_id = "000000000000000000000000000000aa";
  idempotency_key = none;
  metadata = record { description = "nightly"; original_name = "dump.age"; content_format = "" };
  started_at = 82080000;
  failure = "";
  quarantined_at = 0;
  purge_not_before = 0;
  purged_at = 0;
}

abbrev pub second_reserved : Db
second_reserved = record empty {
  backups =
      record {
        id = "00000000000000000000000000000001";
        status = complete;
        size = 300;
        sha256 = "1111111111111111111111111111111111111111111111111111111111111111";
        received_at = stamped 77760000000000000;
        key_id = "000000000000000000000000000000aa";
        idempotency_key = none;
        metadata = record {
          description = "nightly";
          original_name = "dump.age";
          content_format = "";
        };
        started_at = 77760000;
        failure = "";
        quarantined_at = 0;
        purge_not_before = 0;
        purged_at = 0;
      }
      ∷ record {
        id = "00000000000000000000000000000002";
        status = receiving;
        size = 300;
        sha256 = "1111111111111111111111111111111111111111111111111111111111111111";
        received_at = unset;
        key_id = "000000000000000000000000000000aa";
        idempotency_key = none;
        metadata = record {
          description = "nightly";
          original_name = "dump.age";
          content_format = "";
        };
        started_at = 82080000;
        failure = "";
        quarantined_at = 0;
        purge_not_before = 0;
        purged_at = 0;
      }
      ∷ [];
  attempts =
      record {
        key_id = "000000000000000000000000000000aa";
        backup_id = "00000000000000000000000000000002";
        attempted_at = 82080000;
      }
      ∷ [];
}

pub second_reserved_ok :
    reserve env request second_id (on_day 950) none first_complete
    ≡ ok (second_reserved_row, second_reserved)
unfolding reserve validate_request find_active_key lookup_plan is_retry_of check_limits used_bytes
    active_uploads attempts_since check_disk_space reserved_bytes add_attempt new_backup
    store_deposit deposit_id restart admit validate_metadata valid_token valid_digest valid_id
    hex_decode hex_value is_blank is_control valid_idempotency_key select count sum update keep any
second_reserved_ok = refl

abbrev pub second_complete : Db
second_complete = record empty {
  backups =
      record {
        id = "00000000000000000000000000000001";
        status = complete;
        size = 300;
        sha256 = "1111111111111111111111111111111111111111111111111111111111111111";
        received_at = stamped 77760000000000000;
        key_id = "000000000000000000000000000000aa";
        idempotency_key = none;
        metadata = record {
          description = "nightly";
          original_name = "dump.age";
          content_format = "";
        };
        started_at = 77760000;
        failure = "";
        quarantined_at = 0;
        purge_not_before = 0;
        purged_at = 0;
      }
      ∷ record {
        id = "00000000000000000000000000000002";
        status = complete;
        size = 300;
        sha256 = "1111111111111111111111111111111111111111111111111111111111111111";
        received_at = stamped 82080000000000000;
        key_id = "000000000000000000000000000000aa";
        idempotency_key = none;
        metadata = record {
          description = "nightly";
          original_name = "dump.age";
          content_format = "";
        };
        started_at = 82080000;
        failure = "";
        quarantined_at = 0;
        purge_not_before = 0;
        purged_at = 0;
      }
      ∷ [];
  attempts =
      record {
        key_id = "000000000000000000000000000000aa";
        backup_id = "00000000000000000000000000000002";
        attempted_at = 82080000;
      }
      ∷ [];
}

pub second_complete_ok :
    complete_deposit env second_id (on_day 950) [] second_reserved ≡ ok second_complete
unfolding complete_deposit mark_complete open_findings select count sum update keep any
second_complete_ok = refl

abbrev pub chosen_row : Operation
chosen_row = record {
  id = 1;
  backup_id = "00000000000000000000000000000001";
  kind = quarantine;
  state = requested;
  origin = manual;
  actor = "root";
  reason = "full";
  ticket_hash = "";
  revision = 1;
  requested_at = 86400000;
  authorized_at = 0;
  completed_at = 0;
  error = "";
  lease_generation = 0;
  execution_committed = false;
}

abbrev pub chosen : Db
chosen = record empty {
  backups =
      record {
        id = "00000000000000000000000000000001";
        status = deleting;
        size = 300;
        sha256 = "1111111111111111111111111111111111111111111111111111111111111111";
        received_at = stamped 77760000000000000;
        key_id = "000000000000000000000000000000aa";
        idempotency_key = none;
        metadata = record {
          description = "nightly";
          original_name = "dump.age";
          content_format = "";
        };
        started_at = 77760000;
        failure = "";
        quarantined_at = 0;
        purge_not_before = 0;
        purged_at = 0;
      }
      ∷ record {
        id = "00000000000000000000000000000002";
        status = complete;
        size = 300;
        sha256 = "1111111111111111111111111111111111111111111111111111111111111111";
        received_at = stamped 82080000000000000;
        key_id = "000000000000000000000000000000aa";
        idempotency_key = none;
        metadata = record {
          description = "nightly";
          original_name = "dump.age";
          content_format = "";
        };
        started_at = 82080000;
        failure = "";
        quarantined_at = 0;
        purge_not_before = 0;
        purged_at = 0;
      }
      ∷ [];
  attempts =
      record {
        key_id = "000000000000000000000000000000aa";
        backup_id = "00000000000000000000000000000002";
        attempted_at = 82080000;
      }
      ∷ [];
  operations =
      record {
        id = 1;
        backup_id = "00000000000000000000000000000001";
        kind = quarantine;
        state = requested;
        origin = manual;
        actor = "root";
        reason = "full";
        ticket_hash = "";
        revision = 1;
        requested_at = 86400000;
        authorized_at = 0;
        completed_at = 0;
        error = "";
        lease_generation = 0;
        execution_committed = false;
      }
      ∷ [];
  next_operation = 2;
}

pub chosen_ok :
    request_quarantine env first_id manual "root" "full" (on_day 1000) second_complete
    ≡ ok (chosen_row, chosen)
unfolding request_quarantine valid_id hex_decode hex_value is_blank is_copy transition
    insert_operation check_retention_minimum retention_days_for retention_protected
    not_before_cutoff local_midnight is_missing is_blocked select count sum update keep any
chosen_ok = refl

abbrev pub leased : Db
leased = record empty {
  backups =
      record {
        id = "00000000000000000000000000000001";
        status = deleting;
        size = 300;
        sha256 = "1111111111111111111111111111111111111111111111111111111111111111";
        received_at = stamped 77760000000000000;
        key_id = "000000000000000000000000000000aa";
        idempotency_key = none;
        metadata = record {
          description = "nightly";
          original_name = "dump.age";
          content_format = "";
        };
        started_at = 77760000;
        failure = "";
        quarantined_at = 0;
        purge_not_before = 0;
        purged_at = 0;
      }
      ∷ record {
        id = "00000000000000000000000000000002";
        status = complete;
        size = 300;
        sha256 = "1111111111111111111111111111111111111111111111111111111111111111";
        received_at = stamped 82080000000000000;
        key_id = "000000000000000000000000000000aa";
        idempotency_key = none;
        metadata = record {
          description = "nightly";
          original_name = "dump.age";
          content_format = "";
        };
        started_at = 82080000;
        failure = "";
        quarantined_at = 0;
        purge_not_before = 0;
        purged_at = 0;
      }
      ∷ [];
  attempts =
      record {
        key_id = "000000000000000000000000000000aa";
        backup_id = "00000000000000000000000000000002";
        attempted_at = 82080000;
      }
      ∷ [];
  operations =
      record {
        id = 1;
        backup_id = "00000000000000000000000000000001";
        kind = quarantine;
        state = requested;
        origin = manual;
        actor = "root";
        reason = "full";
        ticket_hash = "";
        revision = 1;
        requested_at = 86400000;
        authorized_at = 0;
        completed_at = 0;
        error = "";
        lease_generation = 0;
        execution_committed = false;
      }
      ∷ [];
  lease = record { owner = "daemon"; generation = 1; expires_at = 86403600 };
  next_operation = 2;
}

pub leased_ok : acquire_maintenance_lease "daemon" 0 (on_day 1000) hour chosen ≡ ok (held, leased)
unfolding acquire_maintenance_lease acquire_row is_blank select count sum update keep any
leased_ok = refl

abbrev pub granted : Db
granted = record empty {
  backups =
      record {
        id = "00000000000000000000000000000001";
        status = deleting;
        size = 300;
        sha256 = "1111111111111111111111111111111111111111111111111111111111111111";
        received_at = stamped 77760000000000000;
        key_id = "000000000000000000000000000000aa";
        idempotency_key = none;
        metadata = record {
          description = "nightly";
          original_name = "dump.age";
          content_format = "";
        };
        started_at = 77760000;
        failure = "";
        quarantined_at = 0;
        purge_not_before = 0;
        purged_at = 0;
      }
      ∷ record {
        id = "00000000000000000000000000000002";
        status = complete;
        size = 300;
        sha256 = "1111111111111111111111111111111111111111111111111111111111111111";
        received_at = stamped 82080000000000000;
        key_id = "000000000000000000000000000000aa";
        idempotency_key = none;
        metadata = record {
          description = "nightly";
          original_name = "dump.age";
          content_format = "";
        };
        started_at = 82080000;
        failure = "";
        quarantined_at = 0;
        purge_not_before = 0;
        purged_at = 0;
      }
      ∷ [];
  attempts =
      record {
        key_id = "000000000000000000000000000000aa";
        backup_id = "00000000000000000000000000000002";
        attempted_at = 82080000;
      }
      ∷ [];
  operations =
      record {
        id = 1;
        backup_id = "00000000000000000000000000000001";
        kind = quarantine;
        state = authorized;
        origin = manual;
        actor = "root";
        reason = "full";
        ticket_hash = "#ticket";
        revision = 1;
        requested_at = 86400000;
        authorized_at = 86400000;
        completed_at = 0;
        error = "";
        lease_generation = 1;
        execution_committed = false;
      }
      ∷ [];
  lease = record { owner = "daemon"; generation = 1; expires_at = 86403600 };
  next_operation = 2;
}

pub granted_ok : authorize_operation env 1 "ticket" held (on_day 1000) leased ≡ ok granted
unfolding validate_lease is_current is_blank is_receiving update_operation is_destructive unit_if
    check_key check_policy is_stable_copy authorize_operation grant reissue check_retention_minimum
    retention_days_for retention_protected not_before_cutoff local_midnight is_missing is_blocked
    select count sum update keep any
granted_ok = refl

abbrev pub validated : Db
validated = record empty {
  backups =
      record {
        id = "00000000000000000000000000000001";
        status = deleting;
        size = 300;
        sha256 = "1111111111111111111111111111111111111111111111111111111111111111";
        received_at = stamped 77760000000000000;
        key_id = "000000000000000000000000000000aa";
        idempotency_key = none;
        metadata = record {
          description = "nightly";
          original_name = "dump.age";
          content_format = "";
        };
        started_at = 77760000;
        failure = "";
        quarantined_at = 0;
        purge_not_before = 0;
        purged_at = 0;
      }
      ∷ record {
        id = "00000000000000000000000000000002";
        status = complete;
        size = 300;
        sha256 = "1111111111111111111111111111111111111111111111111111111111111111";
        received_at = stamped 82080000000000000;
        key_id = "000000000000000000000000000000aa";
        idempotency_key = none;
        metadata = record {
          description = "nightly";
          original_name = "dump.age";
          content_format = "";
        };
        started_at = 82080000;
        failure = "";
        quarantined_at = 0;
        purge_not_before = 0;
        purged_at = 0;
      }
      ∷ [];
  attempts =
      record {
        key_id = "000000000000000000000000000000aa";
        backup_id = "00000000000000000000000000000002";
        attempted_at = 82080000;
      }
      ∷ [];
  operations =
      record {
        id = 1;
        backup_id = "00000000000000000000000000000001";
        kind = quarantine;
        state = authorized;
        origin = manual;
        actor = "root";
        reason = "full";
        ticket_hash = "#ticket";
        revision = 1;
        requested_at = 86400000;
        authorized_at = 86400000;
        completed_at = 0;
        error = "";
        lease_generation = 1;
        execution_committed = true;
      }
      ∷ [];
  lease = record { owner = "daemon"; generation = 1; expires_at = 86403600 };
  next_operation = 2;
}

pub validated_ok : validate_operation env 1 "ticket" held (on_day 1000) granted ≡ ok validated
unfolding validate_lease is_current is_blank is_receiving update_operation is_destructive unit_if
    check_key check_policy is_stable_copy validate_operation holds_ticket commit_execution
    check_retention_minimum retention_days_for retention_protected not_before_cutoff local_midnight
    is_missing is_blocked select count sum update keep any
validated_ok = refl

abbrev pub isolated : Db
isolated = record empty {
  backups =
      record {
        id = "00000000000000000000000000000001";
        status = quarantined;
        size = 300;
        sha256 = "1111111111111111111111111111111111111111111111111111111111111111";
        received_at = stamped 77760000000000000;
        key_id = "000000000000000000000000000000aa";
        idempotency_key = none;
        metadata = record {
          description = "nightly";
          original_name = "dump.age";
          content_format = "";
        };
        started_at = 77760000;
        failure = "";
        quarantined_at = 86400000;
        purge_not_before = 86572800;
        purged_at = 0;
      }
      ∷ record {
        id = "00000000000000000000000000000002";
        status = complete;
        size = 300;
        sha256 = "1111111111111111111111111111111111111111111111111111111111111111";
        received_at = stamped 82080000000000000;
        key_id = "000000000000000000000000000000aa";
        idempotency_key = none;
        metadata = record {
          description = "nightly";
          original_name = "dump.age";
          content_format = "";
        };
        started_at = 82080000;
        failure = "";
        quarantined_at = 0;
        purge_not_before = 0;
        purged_at = 0;
      }
      ∷ [];
  attempts =
      record {
        key_id = "000000000000000000000000000000aa";
        backup_id = "00000000000000000000000000000002";
        attempted_at = 82080000;
      }
      ∷ [];
  operations =
      record {
        id = 1;
        backup_id = "00000000000000000000000000000001";
        kind = quarantine;
        state = confirmed;
        origin = manual;
        actor = "root";
        reason = "full";
        ticket_hash = "#ticket";
        revision = 1;
        requested_at = 86400000;
        authorized_at = 86400000;
        completed_at = 86400000;
        error = "";
        lease_generation = 1;
        execution_committed = true;
      }
      ∷ [];
  lease = record { owner = "daemon"; generation = 1; expires_at = 86403600 };
  next_operation = 2;
}

pub isolated_ok :
    confirm_operation env 1 "ticket" true "" held (on_day 1000) validated ≡ ok isolated
unfolding confirm_operation confirm_again confirm_first confirm_done holds_ticket apply_result
    purge_not_before transition mark_confirmed finish update_operation validate_lease is_current
    is_blank resolve_operation operation_key uncertain_key decimal is_open_error queue_mail select
    count sum update keep any
isolated_ok = refl

abbrev pub condemned_row : Operation
condemned_row = record {
  id = 2;
  backup_id = "00000000000000000000000000000001";
  kind = purge;
  state = requested;
  origin = manual;
  actor = "root";
  reason = "full";
  ticket_hash = "";
  revision = 1;
  requested_at = 86572800;
  authorized_at = 0;
  completed_at = 0;
  error = "";
  lease_generation = 0;
  execution_committed = false;
}

abbrev pub condemned : Db
condemned = record empty {
  backups =
      record {
        id = "00000000000000000000000000000001";
        status = purging;
        size = 300;
        sha256 = "1111111111111111111111111111111111111111111111111111111111111111";
        received_at = stamped 77760000000000000;
        key_id = "000000000000000000000000000000aa";
        idempotency_key = none;
        metadata = record {
          description = "nightly";
          original_name = "dump.age";
          content_format = "";
        };
        started_at = 77760000;
        failure = "";
        quarantined_at = 86400000;
        purge_not_before = 86572800;
        purged_at = 0;
      }
      ∷ record {
        id = "00000000000000000000000000000002";
        status = complete;
        size = 300;
        sha256 = "1111111111111111111111111111111111111111111111111111111111111111";
        received_at = stamped 82080000000000000;
        key_id = "000000000000000000000000000000aa";
        idempotency_key = none;
        metadata = record {
          description = "nightly";
          original_name = "dump.age";
          content_format = "";
        };
        started_at = 82080000;
        failure = "";
        quarantined_at = 0;
        purge_not_before = 0;
        purged_at = 0;
      }
      ∷ [];
  attempts =
      record {
        key_id = "000000000000000000000000000000aa";
        backup_id = "00000000000000000000000000000002";
        attempted_at = 82080000;
      }
      ∷ [];
  operations =
      record {
        id = 1;
        backup_id = "00000000000000000000000000000001";
        kind = quarantine;
        state = confirmed;
        origin = manual;
        actor = "root";
        reason = "full";
        ticket_hash = "#ticket";
        revision = 1;
        requested_at = 86400000;
        authorized_at = 86400000;
        completed_at = 86400000;
        error = "";
        lease_generation = 1;
        execution_committed = true;
      }
      ∷ record {
        id = 2;
        backup_id = "00000000000000000000000000000001";
        kind = purge;
        state = requested;
        origin = manual;
        actor = "root";
        reason = "full";
        ticket_hash = "";
        revision = 1;
        requested_at = 86572800;
        authorized_at = 0;
        completed_at = 0;
        error = "";
        lease_generation = 0;
        execution_committed = false;
      }
      ∷ [];
  lease = record { owner = "daemon"; generation = 1; expires_at = 86403600 };
  next_operation = 3;
}

pub condemned_ok :
    request_purge env first_id manual "root" "full" (on_day 1002) isolated
    ≡ ok (condemned_row, condemned)
unfolding request_purge valid_id hex_decode hex_value is_blank is_stable_copy transition
    insert_operation check_retention_minimum retention_days_for retention_protected
    not_before_cutoff local_midnight is_missing is_blocked select count sum update keep any
condemned_ok = refl
