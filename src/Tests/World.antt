-- ===== src/Tests/World.antt =====
-- A catalogue, an environment and the times that the runs share.
use onlybackup.Prelude.{ℕ, ◌+◌, ◌*◌, String, true, false, none, some, [], ◌∷◌, Result, ok, err}
use onlybackup.Model.Types.{
  Instant, hour, regular, Backup, Metadata, Profile, Key, Operation, quarantine, requested,
  receiving, unset, manual, MaintenanceLease,
}
use onlybackup.Model.Text.{concat}
use onlybackup.Catalog.Tables.{Db, Environment, Automation, MailSettings}
use onlybackup.Policy.Protection.Civil.{utc}
use onlybackup.Store.Reserve.{Request}

-- an environment whose hash marks its text
abbrev pub env : Environment
env = record {
  hash = λ s. concat "#" s;
  load_location = λ s. some utc;
  format_time = λ s t. "a time";
  parses_address = λ s. true;
  parses_address_list = λ s. true;
}

abbrev pub on_day : ℕ → Instant
on_day d = (d * 24) * hour

abbrev pub settings : MailSettings
settings = record {
  host = "mail.example";
  port = 465;
  tls = true;
  from_address = "a@example";
  recipients = "b@example";
}

abbrev pub automation : Automation
automation = record {
  enabled = true;
  mail_tested = true;
  monitoring_state = regular;
  deletion_blocked = false;
  block_reason = "";
  manual_paused = false;
  manual_pause_reason = "";
  activation_pending = false;
  activation_required = false;
  resume_pending = false;
  resume_requested_at = 0;
  mail_config_version = 1;
  timezone = "UTC";
  retention_days = 30;
  threshold_basis_points = 8000;
  reserve_free = 0;
  model_revision = 1;
  last_check_at = 0;
  next_report_at = 0;
  mail = settings;
}

abbrev pub key_id : String
key_id = "000000000000000000000000000000aa"

abbrev pub first_id : String
first_id = "00000000000000000000000000000001"

abbrev pub second_id : String
second_id = "00000000000000000000000000000002"

abbrev pub digest : String
digest = "1111111111111111111111111111111111111111111111111111111111111111"

abbrev pub profile : Profile
profile = record {
  name = "S";
  total_bytes = 1000;
  max_backup_bytes = 400;
  uploads_per_day = 3;
  concurrent = 1;
}

abbrev pub key : Key
key = record { id = key_id; name = "server"; token_hash = "#token"; profile = "S"; revoked = false }

abbrev pub metadata : Metadata
metadata = record { description = "nightly"; original_name = "dump.age"; content_format = "" }

-- no deposits, one key with its profile, and an automation that removes deposits
abbrev pub empty : Db
empty = record {
  profiles = profile ∷ [];
  keys = key ∷ [];
  backups = [];
  attempts = [];
  automation = automation;
  key_retention = [];
  models = [];
  anomalies = [];
  operations = [];
  exclusions = [];
  mail_queue = [];
  lease = record { owner = ""; generation = 0; expires_at = 0 };
  checks = [];
  check_models = [];
  next_anomaly = 1;
  next_operation = 1;
  next_exclusion = 1;
  next_mail = 1;
  next_check = 1;
}

abbrev pub value {ℓ} : {A : Type ℓ} → A → Result A → A
value default (ok a) = a
value default (err e) = default

abbrev pub request : Request
request = record {
  token = "token";
  metadata = metadata;
  size = 300;
  digest = digest;
  idempotency_key = "";
}

abbrev pub held : MaintenanceLease
held = record { owner = "daemon"; generation = 1; expires_at = 1000 * 86400 + 3600 }

-- rows that stand for the answer of a refused operation
abbrev pub no_backup : Backup
no_backup = record {
  id = "";
  status = receiving;
  size = 0;
  sha256 = "";
  received_at = unset;
  key_id = "";
  idempotency_key = none;
  metadata = metadata;
  started_at = 0;
  failure = "";
  quarantined_at = 0;
  purge_not_before = 0;
  purged_at = 0;
}

abbrev pub no_operation : Operation
no_operation = record {
  id = 0;
  backup_id = "";
  kind = quarantine;
  state = requested;
  origin = manual;
  actor = "";
  reason = "";
  ticket_hash = "";
  revision = 0;
  requested_at = 0;
  authorized_at = 0;
  completed_at = 0;
  error = "";
  lease_generation = 0;
  execution_committed = false;
}
