-- ===== src/Store/Checks.antt =====
-- internal/store/monitoring_checks.go: the checks of the monitoring, their start, their end, their clean-up and
-- their list.
pub mod Plan
pub mod Learned
pub mod Chains
pub mod Segments
pub mod Finish
pub mod Holds
pub mod Earned
pub mod Start
use onlybackup.Prelude.{
  ℕ, ◌+◌, ◌-◌, ◌≤◌, String, Bool, true, false, ◌&&◌, ◌||◌, not, Option, none, some, List, [], ◌∷◌,
  ◌++◌, map, ltb, leb, ◌==◌, nat_eq, string_eq, if◌then◌else◌, Result, ok, err, refused, refuse_if,
  ◌>>=◌, ◌>>◌, select, count, update, keep, any,
}
use onlybackup.Model.Types.{Instant, unix}
use onlybackup.Model.Text.{codes, is_blank}
use onlybackup.Catalog.Tables.{
  Db, Check, CheckModel, CheckStatus, running, completed_clean, completed_with_anomalies, failed,
}

abbrev pub is_running : Check → Bool
is_running c = elim (c.status) [ running ↦ true | _ ↦ false ]

abbrev pub is_completed : Check → Bool
is_completed c = elim (c.status) [
  | completed_clean ↦ true
  | completed_with_anomalies ↦ true
  | _ ↦ false
]

-- the statement that ends a check: UPDATE monitoring_checks SET status=?,finished_at=?,summary=?
abbrev pub finished : CheckStatus → String → Instant → Check → Check
finished status summary now c = record c {
  status = status;
  finished_at = some (unix now);
  summary = summary;
}

unfoldable pub new_check : ℕ → Instant → Check
new_check id now = record {
  id = id;
  started_at = unix now;
  finished_at = none;
  period_from = unix now;
  period_to = unix now;
  status = running;
  summary = "";
}

-- StartMonitoringCheck
unfoldable pub start_check : Instant → Db → Check × Db
unfolding new_check
start_check now db =
    let c = new_check db.next_check now in
    (
      c,
      record db {
        checks =
            update is_running (finished failed "interrotto dal precedente arresto" now) db.checks
            ++ c ∷ [];
        next_check = db.next_check + 1;
      },
    )

-- FailMonitoringCheck; `clip` is the slice that keeps the first 8192 bytes of a longer text.
unfoldable pub fail_check : (String → String) → ℕ → String → Instant → Db → Db
fail_check clip id summary now db =
    let text = if is_blank summary then "controllo interrotto" else clip summary in
    record db {
      checks = update (λ c. c.id == id && is_running c) (finished failed text now) db.checks;
    }

-- the rows of monitoring_check_models that belong to a completed check
unfoldable pub is_coverage : Db → CheckModel → Bool
is_coverage db cm = any (λ c. c.id == cm.check_id && is_completed c) db.checks

-- SELECT MAX(…): none without a row
unfoldable pub greatest : List ℕ → Option ℕ
greatest [] = none
greatest (n ∷ ns) = elim (greatest ns) [ none ↦ some n | some m ↦ some (if ltb m n then n else m) ]

is_latest : Db → CheckModel → Bool
unfolding is_coverage greatest
is_latest db cm =
    any (λ k. k.id == cm.key_id && not k.revoked) db.keys
    && cm.revision == db.automation.model_revision
    && is_coverage db cm
    && elim (greatest (
        map (λ r. r.covered_to)
          (keep (λ r. r.key_id == cm.key_id && r.revision == cm.revision && is_coverage db r)
            db.check_models))) [ none ↦ false | some m ↦ cm.covered_to == m ]

ended_before : ℕ → Option ℕ → Bool
ended_before cutoff none = false
ended_before cutoff (some t) = ltb t cutoff

-- a check that the clean-up deletes
unfoldable pub is_expired : ℕ → Db → Check → Bool
unfolding is_latest ended_before
is_expired cutoff db c =
    ended_before cutoff c.finished_at
    && not (any (λ cm. cm.check_id == c.id && is_latest db cm) db.check_models)

-- cleanupMonitoringChecksTx; the rows of a deleted check go with it, by ON DELETE CASCADE
unfoldable pub cleanup_checks : ℕ → Db → Db
cleanup_checks cutoff db = record db {
  checks = keep (λ c. not (is_expired cutoff db c)) db.checks;
  check_models =
      keep (λ cm. not (any (λ c. c.id == cm.check_id && is_expired cutoff db c) db.checks))
        db.check_models;
}
