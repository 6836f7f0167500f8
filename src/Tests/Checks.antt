-- ===== src/Tests/Checks.antt =====
-- Runs of the monitoring checks: a key with two models, a completed check, and one that is started after it.
use onlybackup.Prelude.{
  ℕ, ◌+◌, ◌*◌, ◌≤◌, min, ◌≡◌, refl, ◌⊎◌, true, false, ◌&&◌, none, some, List, [], ◌∷◌, ok, leb, any,
  count, keep, select, update, All, ◌==◌, nat_eq,
}
use onlybackup.Model.Types.{Instant, unix, regular}
use onlybackup.Catalog.Tables.{
  Db, ModelRow, Check, CheckModel, completed_clean, running, is_blocked,
}
use onlybackup.Store.Anomaly.{blocking_anomaly_count, is_blocking}
use onlybackup.Store.Complete.{open_findings}
use onlybackup.Store.Resolve.{has_models}
use onlybackup.Store.Checks.{is_running, start_check, is_coverage, greatest, cleanup_checks}
use onlybackup.Store.Checks.Start.{start_check-IsAlone}
use onlybackup.Store.Checks.Plan.{
  tolerance, insert, sort_by, current_revision, is_usable, models_of, distinct, planned_keys,
  latest_coverage, Origin, origin_from, origin, segment_end, segment_start, segments, key_scopes,
  all_scopes, period, insert_scopes, plan_check,
}
use onlybackup.Store.Checks.Chains.{Chained}
use onlybackup.Store.Checks.Segments.{origin-IsContiguous, plan_check-IsTimely}
use onlybackup.Store.Checks.Finish.{
  byte_count, written_state, checked, is_ready, activate, record_check, complete_check,
}
use onlybackup.Store.Checks.Earned.{Freed, complete_check-IsEarned}
use onlybackup.Tests.World.{env, on_day, empty, key_id, automation, value}

abbrev first_model : ModelRow
first_model = record {
  key_id = key_id;
  revision = 1;
  learned_at = 76000000;
  timezone = "UTC";
  reliable = true;
  review_required = false;
}

abbrev completed_before : Check
completed_before = record {
  id = 1;
  started_at = 77001800;
  finished_at = some 77001900;
  period_from = 76000000;
  period_to = 77000000;
  status = completed_clean;
  summary = "nessuna anomalia";
}

-- a catalogue whose last check covered the time up to 77000000, with a resumption that is pending
abbrev watched : Db
watched = record empty {
  automation = record automation { deletion_blocked = true; resume_pending = true };
  models = first_model ∷ [];
  checks =
      completed_before
      ∷ record {
        id = 2;
        started_at = 77088200;
        finished_at = none;
        period_from = 77088200;
        period_to = 77088200;
        status = running;
        summary = "";
      }
      ∷ [];
  check_models =
      record {
        check_id = 1;
        key_id = key_id;
        revision = 1;
        covered_from = 76000000;
        covered_to = 77000000;
      }
      ∷ [];
  next_check = 3;
}

start_check-IsAlone_example :
    (count is_running (start_check (on_day 900) watched).1.checks ≡ 1)
    × (is_running (start_check (on_day 900) watched).0 ≡ true)
    × (count (λ c. c.id == 3 && is_running c) (start_check (on_day 900) watched).1.checks ≡ 1)
start_check-IsAlone_example = start_check-IsAlone (on_day 900) watched

abbrev resumed : Origin
resumed = record { start = 77000000; continues = true; models = first_model ∷ [] }

resumed_ok : origin env 2 key_id watched ≡ ok resumed
unfolding origin origin_from latest_coverage greatest is_coverage models_of sort_by insert is_usable
    current_revision keep any
resumed_ok = refl

origin-IsContiguous_example :
    Chained 77000000 (key_scopes 2 1 77088200 resumed)
    × All
        (λ cm.
          (cm.check_id ≡ 2) × (77000000 ≤ cm.covered_from) × (cm.covered_to + tolerance ≤ 77088200))
        (key_scopes 2 1 77088200 resumed)
    × ((x : ℕ) (m : ModelRow) (ms : List ModelRow)
        → resumed.models ≡ m ∷ ms
        → All (λ n. n.revision ≤ 1) resumed.models
        → 77000000 ≤ x
        → x + tolerance ≤ 77088200
        → (true ≡ true → m.learned_at ≤ x)
        → any (λ cm. leb cm.covered_from x && leb x cm.covered_to) (key_scopes 2 1 77088200 resumed)
          ≡ true)
origin-IsContiguous_example = origin-IsContiguous env 2 1 77088200 key_id watched resumed resumed_ok

abbrev now : Instant
now = 77088300 * 1000000000

abbrev scope : CheckModel
scope = record {
  check_id = 2;
  key_id = key_id;
  revision = 1;
  covered_from = 77000000;
  covered_to = 77086400;
}

abbrev planned_check : Check
planned_check = record {
  id = 2;
  started_at = 77088200;
  finished_at = none;
  period_from = 77000000;
  period_to = 77086400;
  status = running;
  summary = "";
}

abbrev planned : Db
planned = record watched {
  checks = completed_before ∷ planned_check ∷ [];
  check_models =
      record {
        check_id = 1;
        key_id = key_id;
        revision = 1;
        covered_from = 76000000;
        covered_to = 77000000;
      }
      ∷ scope
      ∷ [];
}

planned_ok : plan_check env 2 now watched ≡ ok (planned_check, scope ∷ [], planned)
unfolding plan_check all_scopes planned_keys distinct origin origin_from latest_coverage greatest
    is_coverage models_of sort_by insert is_usable current_revision key_scopes segments segment_end
    segment_start period insert_scopes keep any select update
planned_ok = refl

plan_check-IsTimely_example :
    All
      (λ cm. (cm.check_id ≡ 2) × (cm.covered_to + tolerance ≤ min 77088200 (unix now)))
      (scope ∷ [])
plan_check-IsTimely_example =
    plan_check-IsTimely env 2 now watched planned planned_check (scope ∷ []) planned_ok

abbrev checked_after : Db
checked_after =
    value empty (complete_check env 2 completed_clean "nessuna anomalia" regular 1 [] now planned)

checked_after_ok :
    complete_check env 2 completed_clean "nessuna anomalia" regular 1 [] now planned
    ≡ ok checked_after
unfolding complete_check byte_count open_findings count
checked_after_ok = refl

-- this check frees the removal of deposits
freed_now : is_blocked checked_after.automation ≡ false
unfolding complete_check byte_count open_findings count record_check checked written_state
    blocking_anomaly_count is_blocking activate is_ready has_models cleanup_checks is_blocked any
freed_now = refl

complete_check-IsEarned_example :
    (count (λ c. c.id == 2 && is_running c) planned.checks ≡ 1)
    × ((planned.automation.model_revision ≡ 0) ⊎ (planned.automation.model_revision ≡ 1))
    × (any (λ c. c.id == 2 && is_running c) checked_after.checks ≡ false)
    × (is_blocked checked_after.automation ≡ false
        → (is_blocked planned.automation ≡ false)
          ⊎ ((found : Db) × (open_findings env [] now planned ≡ ok found)
              × Freed regular 1 now planned found))
complete_check-IsEarned_example =
    complete_check-IsEarned env 2 completed_clean "nessuna anomalia" regular 1 [] now planned
      checked_after checked_after_ok
