-- ===== src/Catalog/Tables.antt =====
-- The tables of the schema constant of internal/store/store.go, and the environment of the store: SHA-256,
-- the time zone database, floating-point arithmetic.
use onlybackup.Prelude.{ℕ, String, Bool, Option, List, ◌||◌, not}
use onlybackup.Model.Types.{
  Instant, Monitoring, Backup, Profile, Key, Operation, MaintenanceLease, Anomaly, Exclusion,
  MailMessage,
}

-- What time.Location offers: the civil day of an instant, its time of day, and time.Date on a civil day and
-- a time of day. Civil days are counted from 1 January 1970.
pub record Location : Type 0 where
  pub day : Instant → ℕ
  pub clock : Instant → ℕ
  pub date : ℕ → ℕ → Instant
  pub weekday : ℕ → ℕ

-- What the store computes with and does not implement: model.TokenHash and ticketHash (SHA-256 in
-- hexadecimal), time.LoadLocation, the layout of a time in a mail, and whether net/mail parses an address or
-- a list of addresses.
pub record Environment : Type 0 where
  pub hash : String → String
  pub load_location : String → Option Location
  pub format_time : String → Instant → String
  pub parses_address : String → Bool
  pub parses_address_list : String → Bool

-- A row of automation_state; the table has exactly one. The columns of the mail server are MailSettings.
pub record MailSettings : Type 0 where
  pub host : String
  pub port : ℕ
  pub tls : Bool
  pub from_address : String
  pub recipients : String

pub record Automation : Type 0 where
  pub enabled : Bool
  pub mail_tested : Bool
  pub monitoring_state : Monitoring
  pub deletion_blocked : Bool
  pub block_reason : String
  pub manual_paused : Bool
  pub manual_pause_reason : String
  pub activation_pending : Bool
  pub activation_required : Bool
  pub resume_pending : Bool
  pub resume_requested_at : ℕ
  pub mail_config_version : ℕ
  pub timezone : String
  pub retention_days : ℕ
  pub threshold_basis_points : ℕ
  pub reserve_free : ℕ
  pub model_revision : ℕ
  pub last_check_at : ℕ
  pub next_report_at : ℕ
  pub mail : MailSettings

-- the expression that every admission of a destructive operation selects
unfoldable pub is_blocked : Automation → Bool
is_blocked a =
    a.deletion_blocked
    || a.manual_paused
    || a.activation_required
    || a.resume_pending
    || not a.enabled
    || not a.mail_tested

pub record Attempt : Type 0 where
  pub key_id : String
  pub backup_id : String
  pub attempted_at : ℕ

pub record KeyRetention : Type 0 where
  pub key_id : String
  pub days : ℕ

-- A row of monitoring_models without the text of the model.
pub record ModelRow : Type 0 where
  pub key_id : String
  pub revision : ℕ
  pub learned_at : ℕ
  pub timezone : String
  pub reliable : Bool
  pub review_required : Bool

pub data CheckStatus : Type 0 where
  running completed_clean completed_with_anomalies failed : CheckStatus

pub record Check : Type 0 where
  pub id : ℕ
  pub started_at : ℕ
  pub finished_at : Option ℕ
  pub period_from : ℕ
  pub period_to : ℕ
  pub status : CheckStatus
  pub summary : String

-- A row of monitoring_check_models: the part of a check that one model of a key covers.
pub record CheckModel : Type 0 where
  pub check_id : ℕ
  pub key_id : String
  pub revision : ℕ
  pub covered_from : ℕ
  pub covered_to : ℕ

-- The `next` fields are the AUTOINCREMENT counters.
pub record Db : Type 0 where
  pub profiles : List Profile
  pub keys : List Key
  pub backups : List Backup
  pub attempts : List Attempt
  pub automation : Automation
  pub key_retention : List KeyRetention
  pub models : List ModelRow
  pub anomalies : List Anomaly
  pub operations : List Operation
  pub exclusions : List Exclusion
  pub mail_queue : List MailMessage
  pub lease : MaintenanceLease
  pub checks : List Check
  pub check_models : List CheckModel
  pub next_anomaly : ℕ
  pub next_operation : ℕ
  pub next_exclusion : ℕ
  pub next_mail : ℕ
  pub next_check : ℕ
