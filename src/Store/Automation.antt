-- ===== src/Store/Automation.antt =====
-- The automation row in internal/store/retention.go: AutomationStatus, SetReserveFree,
-- SetKeyRetentionDays, SetupAutomationMode, MarkMailTested, EnableAutomation, PauseRetention,
-- RequestRetentionResume, ResumeRetention, BeginRelearn and SetCheckState.
use onlybackup.Prelude.{
  ℕ, ◌+◌, ◌*◌, String, Bool, true, false, ◌&&◌, ◌||◌, not, some, List, [], ◌∷◌, ◌++◌, ltb, ◌==◌,
  nat_eq, string_eq, if◌then◌else◌, Result, ok, refused, constraint, ensure, refuse_if, ◌>>=◌, ◌>>◌,
  from_option, any, update,
}
use onlybackup.Model.Types.{
  Instant, unix, hour, Monitoring, learning, regular, paused, state_eq, monitoring_eq,
}
use onlybackup.Model.Text.{codes, every, is_blank, concat}
use onlybackup.Model.Hex.{valid_id}
use onlybackup.Catalog.Tables.{
  Db, Environment, Automation, MailSettings, KeyRetention, Check, CheckStatus, running, is_blocked,
}
use onlybackup.Store.Anomaly.{blocking_anomaly_count, is_recent}
use onlybackup.Store.Resolve.{is_authorized}
use onlybackup.Store.Rules.{is_active}

-- What AutomationStatus shows of the monitoring: a regular system that is blocked is presented as paused.
unfoldable pub shown_state : Automation → Monitoring
shown_state a = if is_blocked a && a.monitoring_state == regular then paused else a.monitoring_state

unfoldable pub shown_reason : Automation → String
shown_reason a = if a.manual_paused then a.manual_pause_reason else a.block_reason

-- SetReserveFree, for a number of bytes that is not negative
unfoldable pub set_reserve_free : ℕ → Db → Db
set_reserve_free bytes db = record db { automation = record db.automation { reserve_free = bytes } }

upsert_days : String → ℕ → List KeyRetention → List KeyRetention
upsert_days key_id days rows =
    if any (λ r. r.key_id == key_id) rows
    then update (λ r. r.key_id == key_id) (λ r. record r { days = days }) rows
    else rows ++ record { key_id = key_id; days = days } ∷ []

-- SetKeyRetentionDays; the column references keys
unfoldable pub set_key_retention_days : String → ℕ → Db → Result Db
unfolding upsert_days
set_key_retention_days key_id days db = do
  refuse_if (not (valid_id key_id) || ltb days 7 || ltb 365000 days)
      (refused "chiave o conservazione non valida: da 7 a 365000 giorni")
  ensure (any (λ k. k.id == key_id) db.keys) (constraint "key_retention.key_id")
  ok (record db { key_retention = upsert_days key_id days db.key_retention })

-- The modes of SetupAutomationMode: '', 'auto' and 'manual'.
pub data Mode : Type 0 where
  unchanged auto by_hand : Mode

mode_of : Mode → Bool → Bool
mode_of unchanged b = b
mode_of auto b = true
mode_of by_hand b = false

has_break : String → Bool
has_break s = not (every (λ c. not (c == 13) && not (c == 10)) (codes s))

has_blank : String → Bool
has_blank s = not (every (λ c. not (c == 32) && not (c == 9)) (codes s))

-- running checks are planned with the configuration that a reset replaces
abbrev is_running : CheckStatus → Bool
is_running running = true
is_running _ = false

unfoldable pub invalidate_checks : Instant → List Check → List Check
invalidate_checks now =
    update (λ c. is_running c.status)
      (λ c. record c {
        status = CheckStatus.failed;
        finished_at = some (unix now);
        summary = "invalidato dalla configurazione amministrativa";
      })

-- the row that a configuration leaves
unfoldable pub configured : MailSettings → String → Mode → Instant → Automation → Automation
unfolding mode_of
configured settings timezone mode now a = record a {
  mail = settings;
  timezone = timezone;
  enabled = mode_of mode a.enabled;
  activation_pending = mode_of mode a.activation_pending;
  activation_required = true;
  resume_pending = false;
  resume_requested_at = 0;
  mail_config_version = a.mail_config_version + 1;
  mail_tested = false;
  monitoring_state = learning;
  deletion_blocked = true;
  block_reason = "prova mail e apprendimento richiesti";
  model_revision = 0;
  next_report_at = unix (now + 72 * hour);
}

-- SetupAutomationMode
unfoldable pub setup_automation :
    Environment → MailSettings → String → Mode → Instant → Db → Result Db
unfolding has_break has_blank
setup_automation env settings timezone mode now db = do
  refuse_if
      (is_blank settings.host
        || settings.port == 0
        || ltb 65535 settings.port
        || is_blank settings.from_address
        || is_blank settings.recipients)
      (refused "configurazione mail incompleta")
  refuse_if
      (has_break (concat settings.host (concat settings.from_address settings.recipients))
        || has_blank settings.host)
      (refused "configurazione mail contiene caratteri non validi")
  ensure (env.parses_address settings.from_address) (refused "mittente mail non valido")
  ensure (env.parses_address_list settings.recipients) (refused "destinatari mail non validi")
  loc ← from_option (env.load_location timezone) (refused "fuso non valido")
  refuse_if (any is_active db.operations) (
      refused
        "configurazione rifiutata: completare, riconciliare o annullare le operazioni pendenti")
  ok (record db {
    checks = invalidate_checks now db.checks;
    automation = configured settings timezone mode now db.automation;
  })

report_or : ℕ → Instant → ℕ
report_or next now = if next == 0 then unix (now + 72 * hour) else next

-- MarkMailTested
unfoldable pub mark_mail_tested : Instant → Db → Db
unfolding report_or
mark_mail_tested now db = record db {
  automation = record db.automation {
    mail_tested = true;
    next_report_at = report_or db.automation.next_report_at now;
  };
}

-- EnableAutomation
unfoldable pub enable_automation : Db → Result Db
enable_automation db = do
  ensure db.automation.mail_tested
      (refused "la prova mail deve riuscire prima di abilitare l'automazione")
  ok (record db { automation = record db.automation { enabled = true } })

-- PauseRetention
unfoldable pub pause_retention : String → Db → Db
pause_retention reason db = record db {
  automation = record db.automation {
    manual_paused = true;
    manual_pause_reason = if is_blank reason then "sospensione amministrativa" else reason;
    activation_pending = false;
    resume_pending = false;
    resume_requested_at = 0;
  };
}

-- RequestRetentionResume
unfoldable pub request_retention_resume : Instant → Db → Db
request_retention_resume now db = record db {
  automation = record db.automation {
    enabled = true;
    resume_pending = true;
    resume_requested_at = unix now;
    block_reason =
        if db.automation.deletion_blocked
        then db.automation.block_reason
        else "ripresa prenotata; controllo valido richiesto";
    deletion_blocked = true;
  };
}

-- the row that a resumption, and an activation after a check, leave
unfoldable pub resumed : Automation → Automation
resumed a = record a {
  deletion_blocked = false;
  block_reason = "";
  manual_paused = false;
  manual_pause_reason = "";
  activation_pending = false;
  activation_required = false;
  resume_pending = false;
  resume_requested_at = 0;
}

-- ResumeRetention
unfoldable pub resume_retention : Instant → Db → Result Db
resume_retention now db = do
  let a = db.automation
  ensure
      (a.enabled
        && a.mail_tested
        && blocking_anomaly_count now db == 0
        && not (any is_authorized db.operations)
        && not (a.model_revision == 0)
        && is_recent a.last_check_at now
        && a.monitoring_state == regular)
      (refused "riattivazione rifiutata")
  ok (record db { automation = resumed a })

-- BeginRelearn
unfoldable pub begin_relearn : Db → Result Db
begin_relearn db = do
  refuse_if (any is_active db.operations)
      (refused "relearn rifiutato: completare, riconciliare o annullare le operazioni pendenti")
  ok (record db {
    automation = record db.automation {
      monitoring_state = learning;
      deletion_blocked = true;
      block_reason = "nuovo apprendimento richiesto";
      model_revision = db.automation.model_revision + 1;
      resume_pending = false;
      resume_requested_at = 0;
    };
  })

checked : Monitoring → ℕ → Instant → Automation → Automation
checked learning revision now a = record a {
  monitoring_state = learning;
  model_revision = revision;
  last_check_at = unix now;
  deletion_blocked = true;
  block_reason = "apprendimento non completato";
}
checked state revision now a = record a {
  monitoring_state = state;
  model_revision = revision;
  last_check_at = unix now;
}

-- SetCheckState
unfoldable pub set_check_state : Monitoring → ℕ → Instant → Db → Db
unfolding checked
set_check_state state revision now db = record db {
  automation = checked state revision now db.automation;
}
