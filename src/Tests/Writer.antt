-- ===== src/Tests/Writer.antt =====
-- Runs of the writer on a deposit of three bytes.
use onlybackup.Prelude.{
  ℕ, ◌+◌, ◌-◌, ◌*◌, ◌^◌, ◌≤◌, String, ◌≡◌, ◌≢◌, refl, true, false, none, some, List, [], ◌∷◌, ◌++◌,
  length, ◌==◌, ok, any, count, keep, select, update, All,
}
use onlybackup.Model.Types.{Instant, Backup, receiving, status_eq}
use onlybackup.Model.Text.{is_control}
use onlybackup.Model.Hex.{hex_decode, hex_value, valid_digest, valid_id}
use onlybackup.Model.Validate.{
  validate_metadata, valid_token, valid_idempotency_key, valid_upload_path, upload_path,
}
use onlybackup.Model.Header.{encode_metadata, decode_metadata, decode_metadata-encode_metadata}
use onlybackup.Catalog.Tables.{Db}
use onlybackup.Store.Reserve.{Request, validate_request}
use onlybackup.Ingest.Requests.{HttpRequest, go, get_header, is_repeated, parse_request}
use onlybackup.Ingest.Accepted.{parse_request-IsValid}
use onlybackup.Ingest.Disk.{Statfs, check_disk, check_disk-IsSound}
use onlybackup.Ingest.Copy.{Copied, copy_and_hash}
use onlybackup.Ingest.Copy.Total.{copy_and_hash-IsHashed}
use onlybackup.Store.Complete.{Finding, complete_deposit, mark_complete, open_findings}
use onlybackup.Ingest.Files.{Files, find_file, remove_file}
use onlybackup.Ingest.Receive.{Faults, no_space, receipt}
use onlybackup.Ingest.Serve.{Moment, Served, IsReceipt, serve, serve-IsSafe}
use onlybackup.Ingest.Slots.{
  Server, Uploads, new_uploads, Reach, held, capacity, Step, admit, record_admission,
  reached-Accounted,
}
use onlybackup.Ingest.Restart.{
  Obstacles, unless, verify, settle_file, settle, settle_all, sweep_entry, sweep, sweep_all,
  reconcile,
}
use onlybackup.Ingest.Restart.Settled.{decide, Verified, reconcile-IsSettled}
use onlybackup.Tests.Story.{first_reserved_row}
use onlybackup.Tests.World.{env, on_day, empty, first_id, digest, metadata}
use onlybackup.Tests.Devices.{codec, to_text, of_text, codec-IsCodec, devices, devices-IsDevices}

encoded : encode_metadata codec metadata ≡ ok (to_text metadata)
unfolding encode_metadata validate_metadata is_control
encoded = refl

decode_metadata-encode_metadata_example : decode_metadata codec (to_text metadata) ≡ ok metadata
decode_metadata-encode_metadata_example =
    decode_metadata-encode_metadata codec metadata (to_text metadata) codec-IsCodec encoded

abbrev disk : Statfs
disk = record { block_size = 4096; available = 1000 }

disk_ok : check_disk (some disk) 1000 300 ≡ ok tt
unfolding check_disk
disk_ok = refl

check_disk-IsSound_example :
    (fs : Statfs) × (some disk ≡ some fs)
    × (fs.available * fs.block_size ≤ 2 ^ 64 - 1)
    × (300 + 1000 ≤ fs.available * fs.block_size)
check_disk-IsSound_example = check_disk-IsSound (some disk) 1000 300 disk_ok

abbrev pub upload : HttpRequest
upload = record {
  path = "/v1/backups";
  raw_query = "";
  method = "POST";
  headers =
      ("Authorization", "Bearer token")
      ∷ ("Content-Type", "application/octet-stream")
      ∷ ("X-Onlybackup-Metadata", to_text metadata)
      ∷ ("X-Onlybackup-Sha256", digest)
      ∷ [];
  content_length = 3;
}

abbrev pub accepted : Request
accepted = record {
  token = "token";
  metadata = metadata;
  size = 3;
  digest = digest;
  idempotency_key = "";
}

upload_ok : parse_request codec upload ≡ go accepted
unfolding parse_request get_header is_repeated any count select valid_upload_path valid_token
    valid_digest hex_decode hex_value valid_idempotency_key decode_metadata validate_metadata
    is_control of_text onlybackup.Tests.Devices.of_parts onlybackup.Tests.Devices.unpair to_text
    onlybackup.Tests.Devices.pair onlybackup.Tests.Devices.with_rune
upload_ok = refl

parse_request-IsValid_example :
    (validate_request accepted ≡ ok tt)
    × (upload.method ≡ "POST")
    × (upload.path ≡ upload_path → accepted.idempotency_key ≢ "")
parse_request-IsValid_example = parse_request-IsValid codec upload accepted upload_ok

abbrev body : List ℕ
body = 1 ∷ 2 ∷ 3 ∷ []

copy_and_hash-IsHashed_example :
    (c : Copied (List ℕ)) × (copy_and_hash devices 4 body [] ≡ some c)
    × (c.sink ≡ [] ++ c.hashed)
    × (c.total ≡ length c.hashed)
    × (c.total ≤ 4)
copy_and_hash-IsHashed_example = copy_and_hash-IsHashed devices devices-IsDevices 4 body []

abbrev no_faults : Faults
no_faults = record {
  create = none;
  write = no_space;
  chmod = none;
  sync = none;
  close = none;
  link = none;
  sync_archives = none;
  remove = none;
  sync_incoming = none;
  commit = no_space;
  cleanup = none;
}

-- SHA-256 on this body, and nothing else that the runs hash
abbrev sha256 : List ℕ → String
sha256 bytes = digest

abbrev moment : Moment
moment = record {
  env = env;
  statfs = some disk;
  reserve_free = 1000;
  fresh_id = first_id;
  now = on_day 900;
}

abbrev files : Files
files = record { incoming = []; archives = [] }

abbrev server : Server
server = record { slots = 0; db = empty }

serve-IsSafe_example :
    (out : Served) × (serve devices sha256 no_faults moment [] codec upload body [] files server
      ≡ some out)
    × (out.server.slots ≡ 0)
    × ((id : String) (old : List ℕ)
        → find_file id [] ≡ some old
        → find_file id out.files.archives ≡ some old)
    × ((given : Backup)
        → out.reply ≡ receipt given
        → (q : Request) × (parse_request codec upload ≡ go q)
          × IsReceipt sha256 moment [] q files server out given)
serve-IsSafe_example =
    serve-IsSafe devices devices-IsDevices sha256 no_faults moment [] codec upload body [] files
      server refl

abbrev unfinished : Db
unfinished = record empty { backups = record first_reserved_row { size = 3 } ∷ [] }

abbrev obstacles : Obstacles
obstacles = record {
  query = none;
  lstat = λ id. none;
  is_special = λ id. false;
  read = λ id. none;
  sync_archives = λ id. none;
  remove = λ id. none;
  read_dir = none;
  lstat_part = λ id. none;
  is_directory = λ id. false;
  remove_part = λ id. none;
  sync_incoming = none;
}

-- a crash between the publication and the completion
abbrev crashed : Files
crashed = record { incoming = (first_id, body) ∷ []; archives = (first_id, body) ∷ [] }

abbrev restarted : String → Instant
restarted id = on_day 901

abbrev no_findings : String → List Finding
no_findings id = []

reconcile_ok :
    (reconcile sha256 obstacles env restarted no_findings crashed unfinished).problem ≡ none
unfolding reconcile settle_all settle settle_file verify unless sweep_all sweep sweep_entry
    find_file remove_file valid_id hex_decode hex_value complete_deposit mark_complete open_findings
    select keep any update
reconcile_ok = refl

reconcile-IsSettled_example :
    ((reconcile sha256 obstacles env restarted no_findings crashed unfinished).db.backups
      ≡ update (λ b. b.status == receiving) (decide restarted crashed.archives) unfinished.backups)
    × All
        (λ b. Verified sha256 b (find_file b.id crashed.archives))
        (keep (λ b. b.status == receiving) unfinished.backups)
    × (any
          (λ b. b.status == receiving)
          (reconcile sha256 obstacles env restarted no_findings crashed unfinished).db.backups
        ≡ false)
    × ((id : String)
        → valid_id id ≡ true
        → find_file id
            (reconcile sha256 obstacles env restarted no_findings crashed unfinished).incoming
          ≡ none)
reconcile-IsSettled_example =
    reconcile-IsSettled sha256 obstacles env restarted no_findings crashed unfinished reconcile_ok

-- the server after an admission
abbrev admitted : Server
admitted = (admit env (some disk) 1000 accepted first_id (on_day 900) (new_uploads empty).server).1

abbrev one_upload : Uploads
one_upload = record {
  server = admitted;
  made =
      record_admission []
        (admit env (some disk) 1000 accepted first_id (on_day 900) (new_uploads empty).server).0;
}

reached-Accounted_example :
    (one_upload.server.slots ≡ held one_upload.made) × (one_upload.server.slots ≤ capacity)
reached-Accounted_example =
    reached-Accounted env empty one_upload
      (Reach.then_step Reach.start (Step.request (some disk) 1000 accepted first_id (on_day 900)))
