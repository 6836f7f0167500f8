-- ===== src/Store/Anomaly.antt =====
-- Anomalies of internal/store/retention.go: anomalyExcludedTx, recordExcludedAnomalyTx, anomalyBlocksTx,
-- blockForAnomalyTx, blockingAnomalyCountTx, openAnomalyAtTx, ResolveAnomaly and AcknowledgeMissingAnomaly.
use onlybackup.Prelude.{
  ℕ, ◌+◌, ◌-◌, ◌*◌, String, Bool, true, false, ◌&&◌, ◌||◌, not, Option, none, some, List, [], ◌∷◌,
  ◌++◌, leb, ◌==◌, nat_eq, string_eq, if◌then◌else◌, Result, ok, err, refused, no_rows, from_option,
  ensure, ◌>>=◌, ◌>>◌, select, count, update, any,
}
use onlybackup.Model.Types.{Instant, unix, Anomaly, Exclusion, anomaly, paused}
use onlybackup.Model.Text.{concat, decimal, is_blank}
use onlybackup.Policy.Warning.{is_quarantine_margin_warning}
use onlybackup.Catalog.Tables.{Db, Environment, Automation}
use onlybackup.Store.Mail.{queue_mail, anomaly_mail, missing_backup_mail}

-- excludableAnomalyKinds
unfoldable pub is_excludable : String → Bool
is_excludable kind =
    kind == "upload" || kind == "time" || kind == "schedule_missing" || kind == "extra"

-- an exclusion that covers a kind at a time, `k.kind=? AND ? BETWEEN e.starts_at AND e.ends_at`
unfoldable pub covers : String → String → ℕ → Exclusion → Bool
covers key_id kind at e =
    e.key_id == key_id && any (λ k. k == kind) e.kinds && leb e.starts_at at && leb at e.ends_at

-- anomalyExcludedTx
unfoldable pub anomaly_excluded : String → String → Instant → Db → Bool
unfolding is_excludable covers
anomaly_excluded key_id kind event_at db =
    if key_id == "" || not (is_excludable kind)
    then false
    else any (covers key_id kind (unix event_at)) db.exclusions

-- ORDER BY e.id DESC LIMIT 1: rows are appended with growing ids
newest : (Exclusion → Bool) → List Exclusion → Option Exclusion → Option Exclusion
newest p [] found = found
newest p (e ∷ es) found = newest p es (if p e then some e else found)

exclusion_note : Exclusion → String
exclusion_note e =
    concat "esclusione amministrativa " (concat (decimal e.id) (concat ": " e.reason))

-- a new row of anomalies that is open
pub new_anomaly : String → String → String → String → String → Instant → Instant → Db → Anomaly
new_anomaly stable_key kind key_id backup_id detail event_at now db = record {
  id = db.next_anomaly;
  stable_key = stable_key;
  kind = kind;
  key_id = key_id;
  backup_id = backup_id;
  detail = detail;
  event_at = unix event_at;
  opened_at = unix now;
  last_seen_at = unix now;
  resolved_at = 0;
  acknowledged_at = 0;
  resolved_by = "";
  resolution_note = "";
}

-- INSERT INTO anomalies
pub append_anomaly : Anomaly → Db → Db
append_anomaly a db = record db {
  anomalies = db.anomalies ++ a ∷ [];
  next_anomaly = db.next_anomaly + 1;
}

record_under : Exclusion → Anomaly → Db → Db
unfolding append_anomaly exclusion_note
record_under e a db =
    let note = exclusion_note e in
    let seen = λ (r : Anomaly).
      r.stable_key == a.stable_key && not (r.resolved_at == 0) && r.resolution_note == note in
    if any seen db.anomalies
    then record db {
      anomalies =
          update seen (λ r. record r { last_seen_at = a.last_seen_at; detail = a.detail })
            db.anomalies;
    }
    else append_anomaly
        (record a {
          resolved_at = a.opened_at;
          acknowledged_at = a.opened_at;
          resolved_by = e.actor;
          resolution_note = note;
        })
        db

-- recordExcludedAnomalyTx
unfoldable pub record_excluded : Anomaly → Db → Result Db
unfolding newest record_under
record_excluded a db = do
  e ← from_option (newest (covers a.key_id a.kind a.event_at) db.exclusions none) no_rows
  ok (record_under e a db)

-- now.AddDate(0, 0, -14), in seconds, for a time in UTC, which has no changes of the clocks. The callers pass
-- UTC, but for Reconcile of internal/ingest/writer.go: there the local clocks may move it by their change.
abbrev pub fortnight_ago : Instant → ℕ
fortnight_ago now = unix now - 14 * 24 * 3600

-- open anomalies of one kind and key in the last 14 days
unfoldable pub recent_open : String → String → Instant → List Anomaly → ℕ
recent_open kind key_id now = count (λ a.
    a.resolved_at == 0
    && a.kind == kind
    && a.key_id == key_id
    && leb (fortnight_ago now) a.event_at)

-- anomalyBlocksTx
unfoldable pub anomaly_blocks : String → String → String → Instant → Db → Bool
unfolding is_excludable
anomaly_blocks stable_key kind key_id now db =
    if kind == "extra" || is_quarantine_margin_warning kind stable_key
    then false
    else if not (is_excludable kind)
    then true
    else leb 2 (recent_open kind key_id now db.anomalies)

-- blockForAnomalyTx
unfoldable pub block_for_anomaly : String → Automation → Automation
block_for_anomaly detail a = record a {
  deletion_blocked = true;
  monitoring_state = anomaly;
  block_reason = concat "anomalia: " detail;
  activation_pending = false;
  resume_pending = false;
  resume_requested_at = 0;
}

-- a row that blockingAnomalyCountTx counts
unfoldable pub is_blocking : Instant → List Anomaly → Anomaly → Bool
unfolding is_excludable
is_blocking now all a =
    a.resolved_at == 0
    && not (is_quarantine_margin_warning a.kind a.stable_key)
    && (not (is_excludable a.kind)
        || (not (a.kind == "extra") && leb 2 (recent_open a.kind a.key_id now all)))

-- blockingAnomalyCountTx
unfoldable pub blocking_anomaly_count : Instant → Db → ℕ
blocking_anomaly_count now db = count (is_blocking now db.anomalies) db.anomalies

-- an open row with a stable key; at most one exists, by the index anomalies_active_key
abbrev pub is_open : String → Anomaly → Bool
is_open stable_key a = a.stable_key == stable_key && a.resolved_at == 0

mail_of : Environment → Anomaly → Instant → Db → String × String
mail_of env a event_at db =
    if a.kind == "schedule_missing"
    then missing_backup_mail env a.key_id event_at db
    else anomaly_mail a.stable_key a.kind a.detail

-- the part of openAnomalyAtTx after its INSERT
block_and_mail : Environment → Anomaly → Instant → Instant → Db → Result Db
unfolding mail_of
block_and_mail env a event_at now db =
    let held =
      if anomaly_blocks a.stable_key a.kind a.key_id now db
      then record db { automation = block_for_anomaly a.detail db.automation }
      else db in
    let (subject, body) = mail_of env a event_at held in
    queue_mail (concat "anomaly:" (concat a.stable_key (concat ":" (decimal (unix now))))) "anomaly"
      subject body now held

unfoldable pub open_new : Environment → Anomaly → Instant → Instant → Db → Result (Bool × Db)
unfolding block_and_mail append_anomaly
open_new env a event_at now db = do
  db' ← block_and_mail env a event_at now (append_anomaly a db)
  ok (true, db')

-- openAnomalyAtTx
unfoldable pub open_anomaly_at :
    Environment
    → String
    → String
    → String
    → String
    → String
    → Instant
    → Instant
    → Db
    → Result (Bool × Db)
unfolding new_anomaly
open_anomaly_at env stable_key kind key_id backup_id detail event_at now db =
    let a = new_anomaly stable_key kind key_id backup_id detail event_at now db in
    if is_blank stable_key || is_blank kind || is_blank detail
    then err (refused "anomalia non valida")
    else if anomaly_excluded key_id kind event_at db
    then (do db' ← record_excluded a db; ok (false, db'))
    else if any (is_open stable_key) db.anomalies
    then ok (
      false,
      record db {
        anomalies =
            update (is_open stable_key) (λ r. record r { last_seen_at = unix now; detail = detail })
              db.anomalies;
      },
    )
    else open_new env a event_at now db

-- openAnomalyTx, and OpenAnomaly without its result
unfoldable pub open_anomaly :
    Environment → String → String → String → String → String → Instant → Db → Result Db
open_anomaly env stable_key kind key_id backup_id detail now db = do
  r ← open_anomaly_at env stable_key kind key_id backup_id detail now now db
  ok r.1

resolve_found : Anomaly → Instant → Db → Result (Bool × Db)
resolve_found a now db =
    let closed = record db {
      anomalies =
          update (is_open a.stable_key) (λ r. record r { resolved_at = unix now }) db.anomalies;
    } in
    let held = if is_quarantine_margin_warning a.kind a.stable_key then closed else record closed {
      automation = record closed.automation {
        deletion_blocked = true;
        monitoring_state = paused;
        block_reason = "anomalia risolta; retention resume richiesto";
      };
    } in
    do
      db' ←
          queue_mail (concat "resolved:" (concat a.stable_key (concat ":" (decimal (unix now)))))
            "resolution" "OnlyBackup: anomalia risolta" a.stable_key now held
      ok (true, db')

resolve_if_open : Option Anomaly → Instant → Db → Result (Bool × Db)
unfolding resolve_found
resolve_if_open none now db = ok (false, db)
resolve_if_open (some a) now db = resolve_found a now db

-- ResolveAnomaly
unfoldable pub resolve_anomaly : String → Instant → Db → Result (Bool × Db)
unfolding resolve_if_open
resolve_anomaly stable_key now db =
    resolve_if_open (select (is_open stable_key) db.anomalies) now db

-- `last_check_at` lies in the last ten minutes
unfoldable pub is_recent : ℕ → Instant → Bool
is_recent last_check now =
    not (last_check == 0) && leb last_check (unix now + 1) && leb (unix now - last_check) 600

-- AcknowledgeMissingAnomaly
unfoldable pub acknowledge_missing : ℕ → Instant → Db → Result Db
acknowledge_missing id now db = do
  a ← from_option (select (λ r. r.id == id && r.resolved_at == 0) db.anomalies) no_rows
  ensure (a.kind == "file_missing")
      (refused "solo una copia definitivamente mancante puo essere riconosciuta")
  ensure (is_recent db.automation.last_check_at now) (refused "serve un controllo recente")
  queue_mail (concat "acknowledged:" (concat a.stable_key (concat ":" (decimal (unix now)))))
      "resolution" "OnlyBackup: copia mancante riconosciuta" a.stable_key now
      (record db {
        anomalies =
            update (λ r. r.id == id && r.resolved_at == 0)
              (λ r. record r { acknowledged_at = unix now; resolved_at = unix now }) db.anomalies;
        automation = record db.automation {
          deletion_blocked = true;
          monitoring_state = paused;
          block_reason = "copia mancante riconosciuta; retention resume richiesto";
          activation_pending = false;
          resume_pending = false;
          resume_requested_at = 0;
        };
      })
