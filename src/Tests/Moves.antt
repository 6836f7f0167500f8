-- ===== src/Tests/Moves.antt =====
-- Runs of the gateway, and of an operation on files.
use onlybackup.Prelude.{
  String, Bool, true, ℕ, ◌≤◌, ◌<◌, ◌≡◌, refl, false, none, List, [], ◌∷◌, length, any, count,
}
use onlybackup.Model.Types.{Operation, quarantine}
use onlybackup.Model.Validate.{valid_upload_path}
use onlybackup.Ingest.Requests.{HttpRequest, go, is_repeated, parse_request}
use onlybackup.Gateway.{
  max_response, capacity, forward, prepare, read, RoundTrip, response, relayed, relay, answer,
  finish, serve,
}
use onlybackup.Gateway.Transparent.{prepare-IsTransparent, serve-IsFaithful}
use onlybackup.Maintenance.Physical.{Archive, unsupported, Conditions, execute_leased}
use onlybackup.Maintenance.Physical.Safe.{IsExecuted, execute_leased-IsSafe}
use onlybackup.Tests.World.{first_id, digest, no_operation}
use onlybackup.Tests.Story.{first_reserved_row}
use onlybackup.Tests.Devices.{codec}
use onlybackup.Tests.Writer.{upload}

abbrev accepts_all : String → Bool
accepts_all path = true

prepared : prepare accepts_all upload 31 ≡ go (forward upload)
unfolding prepare is_repeated any count valid_upload_path
prepared = refl

prepare-IsTransparent_example : parse_request codec (forward upload) ≡ parse_request codec upload
prepare-IsTransparent_example =
    prepare-IsTransparent codec accepts_all upload (forward upload) 31 prepared

abbrev receipt_bytes : List ℕ
receipt_bytes = 123 ∷ 125 ∷ []

abbrev writer : HttpRequest → RoundTrip
writer r = response 201 receipt_bytes read

served : serve accepts_all writer upload 31 ≡ relayed 201 receipt_bytes
unfolding serve finish answer relay prepare is_repeated any count valid_upload_path
served = refl

serve-IsFaithful_example :
    (prepare accepts_all upload 31 ≡ go (forward upload))
    × (writer (forward upload) ≡ response 201 receipt_bytes read)
    × (length receipt_bytes ≤ max_response)
    × (31 < capacity)
serve-IsFaithful_example = serve-IsFaithful accepts_all writer upload 31 201 receipt_bytes served

abbrev operation : Operation
operation = record no_operation { kind = quarantine; backup_id = first_id }

-- a file system without renameat2
abbrev conditions : Conditions
conditions = record {
  is_special = false;
  read = none;
  lstat_destination = none;
  checkpoint = none;
  lstat_source = none;
  lstat_again = none;
  rename = unsupported;
  link = none;
  sync_link = none;
  remove = none;
  sync = none;
  open_file = none;
  is_replaced = false;
  is_replaced_after = false;
  unlink = none;
}

abbrev bytes : List ℕ
bytes = 1 ∷ 2 ∷ 3 ∷ []

abbrev archive : Archive
archive = record { backups = (first_id, bytes) ∷ []; isolated = [] }

execute_leased-IsSafe_example :
    IsExecuted
      (λ bs. digest)
      conditions
      operation
      (record first_reserved_row { size = 3 })
      archive
      (execute_leased
        (λ bs. digest)
        conditions
        operation
        (record first_reserved_row { size = 3 })
        archive)
execute_leased-IsSafe_example =
    execute_leased-IsSafe (λ bs. digest) conditions operation
      (record first_reserved_row { size = 3 }) archive
