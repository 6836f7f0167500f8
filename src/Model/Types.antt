-- ===== src/Model/Types.antt =====
-- The data of internal/model/model.go. A column that the schema restricts to fixed texts is an
-- enumeration; free texts stay texts. An int64 that never becomes negative is a ℕ.
use onlybackup.Prelude.{ℕ, ◌/◌, ◌*◌, String, ◌≡◌, ◌↔◌, Bool, true, false, Option, List, Eq, arith}

-- time.Time, as nanoseconds since 1970 in UTC.
abbrev pub Instant : Type 0
Instant = ℕ

abbrev pub second : ℕ
second = 1_000_000_000

abbrev pub minute : ℕ
minute = 60 * second

abbrev pub hour : ℕ
hour = 60 * minute

-- t.Unix()
abbrev pub unix : Instant → ℕ
unix t = t / second

-- The text of received_at: empty, a time in RFC 3339, or a text that does not parse.
pub data Received : Type 0 where
  unset : Received
  stamped : Instant → Received
  malformed : String → Received

-- The constants BackupReceiving … BackupDeleted.
pub data Status : Type 0 where
  receiving complete failed deleting quarantined purging deleted : Status

abbrev pub same_status : Status → Status → Bool
same_status receiving receiving = true
same_status complete complete = true
same_status failed failed = true
same_status deleting deleting = true
same_status quarantined quarantined = true
same_status purging purging = true
same_status deleted deleted = true
same_status _ _ = false

pub same_status_iff : (a b : Status) → (same_status a b ≡ true) ↔ (a ≡ b)
same_status_iff a b = ground arith

instance abbrev pub status_eq : Eq Status
status_eq = record { beq = same_status; beq_iff = same_status_iff }

-- retention_operations.kind, without 'cancel', which no statement of the program writes
pub data Kind : Type 0 where
  quarantine purge recover : Kind

abbrev pub same_kind : Kind → Kind → Bool
same_kind quarantine quarantine = true
same_kind purge purge = true
same_kind recover recover = true
same_kind _ _ = false

pub same_kind_iff : (a b : Kind) → (same_kind a b ≡ true) ↔ (a ≡ b)
same_kind_iff a b = ground arith

instance abbrev pub kind_eq : Eq Kind
kind_eq = record { beq = same_kind; beq_iff = same_kind_iff }

-- retention_operations.state
pub data OperationState : Type 0 where
  requested authorized confirmed failed cancelled : OperationState

abbrev pub same_state : OperationState → OperationState → Bool
same_state requested requested = true
same_state authorized authorized = true
same_state confirmed confirmed = true
same_state failed failed = true
same_state cancelled cancelled = true
same_state _ _ = false

pub same_state_iff : (a b : OperationState) → (same_state a b ≡ true) ↔ (a ≡ b)
same_state_iff a b = ground arith

instance abbrev pub state_eq : Eq OperationState
state_eq = record { beq = same_state; beq_iff = same_state_iff }

-- retention_operations.origin
pub data Origin : Type 0 where
  manual automatic reconcile : Origin

-- MonitoringLearning, MonitoringRegular, MonitoringAnomaly, MonitoringPaused
pub data Monitoring : Type 0 where
  learning regular anomaly paused : Monitoring

abbrev pub same_monitoring : Monitoring → Monitoring → Bool
same_monitoring learning learning = true
same_monitoring regular regular = true
same_monitoring anomaly anomaly = true
same_monitoring paused paused = true
same_monitoring _ _ = false

pub same_monitoring_iff : (a b : Monitoring) → (same_monitoring a b ≡ true) ↔ (a ≡ b)
same_monitoring_iff a b = ground arith

instance abbrev pub monitoring_eq : Eq Monitoring
monitoring_eq = record { beq = same_monitoring; beq_iff = same_monitoring_iff }

pub record Metadata : Type 0 where
  pub description : String
  pub original_name : String
  pub content_format : String

-- Backup, with the fields of its embedded Receipt and Metadata. `none` is a NULL idempotency key.
pub record Backup : Type 0 where
  pub id : String
  pub status : Status
  pub size : ℕ
  pub sha256 : String
  pub received_at : Received
  pub key_id : String
  pub idempotency_key : Option String
  pub metadata : Metadata
  pub started_at : ℕ
  pub failure : String
  pub quarantined_at : ℕ
  pub purge_not_before : ℕ
  pub purged_at : ℕ

pub record Profile : Type 0 where
  pub name : String
  pub total_bytes : ℕ
  pub max_backup_bytes : ℕ
  pub uploads_per_day : ℕ
  pub concurrent : ℕ

-- Key, with the token's hash that only the table has
pub record Key : Type 0 where
  pub id : String
  pub name : String
  pub token_hash : String
  pub profile : String
  pub revoked : Bool

-- RetentionOperation, with the ticket's hash that only the table has; Ticket is returned beside it
pub record Operation : Type 0 where
  pub id : ℕ
  pub backup_id : String
  pub kind : Kind
  pub state : OperationState
  pub origin : Origin
  pub actor : String
  pub reason : String
  pub ticket_hash : String
  pub revision : ℕ
  pub requested_at : ℕ
  pub authorized_at : ℕ
  pub completed_at : ℕ
  pub error : String
  pub lease_generation : ℕ
  pub execution_committed : Bool

pub record MaintenanceLease : Type 0 where
  pub owner : String
  pub generation : ℕ
  pub expires_at : ℕ

pub record Anomaly : Type 0 where
  pub id : ℕ
  pub stable_key : String
  pub kind : String
  pub key_id : String
  pub backup_id : String
  pub detail : String
  pub event_at : ℕ
  pub opened_at : ℕ
  pub last_seen_at : ℕ
  pub resolved_at : ℕ
  pub acknowledged_at : ℕ
  pub resolved_by : String
  pub resolution_note : String

-- AnomalyExclusion, with its rows of anomaly_exclusion_kinds
pub record Exclusion : Type 0 where
  pub id : ℕ
  pub source_anomaly_id : ℕ
  pub key_id : String
  pub starts_at : ℕ
  pub ends_at : ℕ
  pub actor : String
  pub reason : String
  pub created_at : ℕ
  pub kinds : List String

pub record MailMessage : Type 0 where
  pub id : ℕ
  pub stable_id : String
  pub kind : String
  pub subject : String
  pub body : String
  pub attempts : ℕ
  pub next_attempt : ℕ
  pub sent_at : ℕ
  pub last_error : String
