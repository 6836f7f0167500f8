-- ===== src/Store/Exclusion.antt =====
-- CreateAnomalyExclusion of internal/store/retention.go.
use onlybackup.Prelude.{
  ℕ, ◌+◌, ◌-◌, ◌*◌, String, Bool, true, false, ◌&&◌, ◌||◌, not, List, [], ◌∷◌, ◌++◌, ltb, leb, ◌==◌,
  nat_eq, string_eq, if◌then◌else◌, Result, ok, refused, constraint, no_rows, from_option, ensure,
  refuse_if, ◌>>=◌, ◌>>◌, select, update, any,
}
use onlybackup.Model.Types.{Instant, unix, hour, Anomaly, Exclusion, regular}
use onlybackup.Model.Text.{codes, trim, like_prefix}
use onlybackup.Catalog.Tables.{Db}
use onlybackup.Store.Anomaly.{is_excludable, blocking_anomaly_count}
use onlybackup.Store.Resolve.{is_authorized}

-- the loop over the kinds, with `seen` as a list
unfoldable pub are_kinds : List String → List String → Bool
unfolding is_excludable
are_kinds seen [] = true
are_kinds seen (kind ∷ kinds) =
    is_excludable kind && not (any (λ k. k == kind) seen) && are_kinds (kind ∷ seen) kinds

abbrev has_kind : List String → String → Bool
has_kind kinds kind = any (λ k. k == kind) kinds

clear_if_quiet : Instant → Db → Db
clear_if_quiet now db =
    if blocking_anomaly_count now db == 0
      && not (any is_authorized db.operations)
      && like_prefix (codes "anomalia:") (codes db.automation.block_reason)
    then record db {
      automation = record db.automation {
        deletion_blocked = false;
        monitoring_state = regular;
        block_reason = "";
      };
    }
    else db

-- CreateAnomalyExclusion
unfoldable pub create_anomaly_exclusion :
    ℕ → Instant → Instant → String → String → List String → Instant → Db → Result (Exclusion × Db)
unfolding clear_if_quiet
create_anomaly_exclusion source_id starts_at ends_at given_actor given_reason kinds now db = do
  let actor = trim given_actor
  let reason = trim given_reason
  refuse_if
      (source_id == 0
        || actor == ""
        || reason == ""
        || ltb ends_at starts_at
        || ltb (7 * 24 * hour) (ends_at - starts_at)
        || not (any (λ _. true) kinds))
      (refused "esclusione anomalia non valida o superiore a sette giorni")
  ensure (are_kinds [] kinds) (refused "tipo anomalia non escludibile o duplicato")
  source ← from_option (select (λ a. a.id == source_id) db.anomalies) no_rows
  refuse_if
      (source.key_id == ""
        || ltb source.event_at (unix starts_at)
        || ltb (unix ends_at) source.event_at)
      (refused "l'intervallo deve contenere l'anomalia originaria associata a una chiave")
  refuse_if (any (λ e. e.source_anomaly_id == source_id) db.exclusions)
      (constraint "anomaly_exclusions.source_anomaly_id")
  refuse_if (not (any (λ k. k.id == source.key_id) db.keys))
      (constraint "anomaly_exclusions.key_id")
  let e : Exclusion = record {
    id = db.next_exclusion;
    source_anomaly_id = source_id;
    key_id = source.key_id;
    starts_at = unix starts_at;
    ends_at = unix ends_at;
    actor = actor;
    reason = reason;
    created_at = unix now;
    kinds = kinds;
  }
  let covered = λ (a : Anomaly).
      a.resolved_at == 0
      && a.key_id == source.key_id
      && leb (unix starts_at) a.event_at
      && leb a.event_at (unix ends_at)
      && has_kind kinds a.kind
  ok (
    e,
    clear_if_quiet now (record db {
      exclusions = db.exclusions ++ e ∷ [];
      next_exclusion = db.next_exclusion + 1;
      anomalies =
          update covered
            (λ a. record a {
              resolved_at = unix now;
              acknowledged_at = unix now;
              resolved_by = actor;
              resolution_note = reason;
            })
            db.anomalies;
    }),
  )
