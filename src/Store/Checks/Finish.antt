-- ===== src/Store/Checks/Finish.antt =====
-- CompleteMonitoringCheck and activateRetentionAfterCheckTx.
use onlybackup.Prelude.{
  ℕ, ◌+◌, ◌-◌, ◌*◌, String, Bool, true, false, ◌&&◌, ◌||◌, not, List, [], ◌∷◌, ltb, ◌==◌, nat_eq,
  if◌then◌else◌, Result, ok, refused, ensure, refuse_if, ◌>>=◌, ◌>>◌, count, update, any,
}
use onlybackup.Model.Types.{
  Instant, unix, Monitoring, learning, regular, anomaly, authorized, state_eq,
}
use onlybackup.Model.Text.{codes}
use onlybackup.Catalog.Tables.{
  Db, Environment, Automation, CheckStatus, completed_clean, completed_with_anomalies,
}
use onlybackup.Store.Anomaly.{blocking_anomaly_count}
use onlybackup.Store.Resolve.{has_models}
use onlybackup.Store.Complete.{Finding, open_findings}
use onlybackup.Store.Checks.{is_running, finished, cleanup_checks}

-- the bytes of the UTF-8 encoding
unfoldable pub byte_count : List ℕ → ℕ
byte_count [] = 0
byte_count (c ∷ cs) =
    (if ltb c 0x80 then 1 else if ltb c 0x800 then 2 else if ltb c 0x10000 then 3 else 4)
    + byte_count cs

abbrev pub is_clean : CheckStatus → Bool
is_clean completed_clean = true
is_clean _ = false

abbrev pub is_outcome : CheckStatus → Bool
is_outcome completed_clean = true
is_outcome completed_with_anomalies = true
is_outcome _ = false

abbrev pub is_empty : List Finding → Bool
is_empty [] = true
is_empty (f ∷ fs) = false

abbrev pub is_regular : Monitoring → Bool
is_regular regular = true
is_regular _ = false

-- the state that the completion writes: an anomaly that blocks overrides the one that was computed
unfoldable pub written_state : ℕ → Monitoring → Monitoring
written_state blocking state = if ltb 0 blocking then anomaly else state

-- UPDATE automation_state
unfoldable pub checked : Monitoring → ℕ → Instant → Automation → Automation
checked learning revision now a = record a {
  monitoring_state = learning;
  model_revision = revision;
  last_check_at = unix now;
  deletion_blocked = true;
  block_reason = "apprendimento non completato";
}
checked state revision now a = record a {
  monitoring_state = state;
  model_revision = revision;
  last_check_at = unix now;
}

-- the condition of activateRetentionAfterCheckTx
unfoldable pub is_ready : Db → Bool
is_ready db =
    let a = db.automation in
    a.enabled
    && a.mail_tested
    && is_regular a.monitoring_state
    && not (a.model_revision == 0)
    && (a.resume_pending || (a.activation_pending && not a.manual_paused))
    && any (λ k. not k.revoked) db.keys
    && has_models db
    && not (any (λ o. o.state == authorized) db.operations)

-- activateRetentionAfterCheckTx
unfoldable pub activate : Db → Db
activate db =
    if is_ready db
    then record db {
      automation = record db.automation {
        deletion_blocked = false;
        block_reason = "";
        manual_paused = false;
        manual_pause_reason = "";
        activation_pending = false;
        activation_required = false;
        resume_pending = false;
        resume_requested_at = 0;
      };
    }
    else db

-- monitoringCheckRetention
abbrev pub retention_seconds : ℕ
retention_seconds = 90 * 24 * 3600

-- the two statements on automation_state and monitoring_checks
unfoldable pub record_check : ℕ → CheckStatus → String → Monitoring → ℕ → Instant → Db → Db
record_check id outcome summary state revision now db = record db {
  automation =
      checked (written_state (blocking_anomaly_count now db) state) revision now db.automation;
  checks = update (λ c. c.id == id && is_running c) (finished outcome summary now) db.checks;
}

-- CompleteMonitoringCheck; a state outside the four of Monitoring, and a finding without a time, which takes the
-- time of the call, are left to the caller.
unfoldable pub complete_check :
    Environment
    → ℕ
    → CheckStatus
    → String
    → Monitoring
    → ℕ
    → List Finding
    → Instant
    → Db
    → Result Db
complete_check env id outcome summary state revision findings now db = do
  ensure (is_outcome outcome) (refused "esito controllo non valido")
  ensure
      (is_clean outcome && is_empty findings || not (is_clean outcome) && not (is_empty findings))
      (refused "esito controllo incoerente con le anomalie")
  refuse_if (ltb 8192 (byte_count (codes summary))) (refused "riepilogo controllo troppo lungo")
  ensure (count (λ c. c.id == id && is_running c) db.checks == 1)
      (refused "controllo non piu in corso o invalidato dalla configurazione")
  refuse_if
      (not (db.automation.model_revision == 0) && not (db.automation.model_revision == revision))
      (refused "controllo obsoleto: revisione del modello cambiata; ripetere il controllo")
  db1 ← open_findings env findings now db
  ensure (count (λ c. c.id == id && is_running c) db1.checks == 1)
      (refused "controllo non piu in corso")
  ok (
      cleanup_checks (unix now - retention_seconds)
        (activate (record_check id outcome summary state revision now db1)))
