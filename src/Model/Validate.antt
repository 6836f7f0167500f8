-- ===== src/Model/Validate.antt =====
-- ValidUploadPath, Metadata.Validate, ValidToken and ValidIdempotencyKey of internal/model/model.go.
use onlybackup.Prelude.{
  ℕ, ◌+◌, String, Bool, ◌&&◌, ◌||◌, not, Option, none, some, ltb, ◌==◌, nat_eq, string_eq,
  if◌then◌else◌, length,
}
use onlybackup.Model.Types.{Metadata}
use onlybackup.Model.Text.{codes, every, between, is_blank, is_control, byte_len}

abbrev pub upload_path : String
upload_path = "/v2/backups"

abbrev pub legacy_upload_path : String
legacy_upload_path = "/v1/backups"

unfoldable pub valid_upload_path : String → Bool
valid_upload_path path = path == upload_path || path == legacy_upload_path

-- a rune of the description that is accepted
pub description_rune : ℕ → Bool
unfolding is_control
description_rune r = not (is_control r && not (r == 10) && not (r == 9))

-- a rune that strings.ContainsAny(n, "/\\") does not find
pub is_plain : ℕ → Bool
is_plain r = not (r == b'/' || r == 0x5c)

-- `none` is success; the errors are texts, as in the source
unfoldable pub validate_metadata : Metadata → Option String
unfolding description_rune is_plain is_blank is_control
validate_metadata m =
    let d = codes m.description in
    let n = codes m.original_name in
    if is_blank m.description || ltb 1000 (length d)
    then some "descrizione obbligatoria, massimo 1000 caratteri UTF-8"
    else if not (every description_rune d)
    then some "descrizione con caratteri di controllo"
    else if is_blank m.original_name
        || ltb 255 (length n)
        || m.original_name == "."
        || m.original_name == ".."
        || not (every is_plain n)
    then some "nome file obbligatorio, massimo 255 caratteri e senza percorsi"
    else if not (every (λ r. not (is_control r)) n)
    then some "nome file con caratteri di controllo"
    else if not (m.content_format == "") && not (m.content_format == "age-v1")
    then some "formato contenuto non supportato"
    else none

unfoldable pub valid_token : String → Bool
valid_token s =
    let n = byte_len (codes s) in
    if n == 0 || ltb 255 n then Bool.false else every (between 33 126) (codes s)

abbrev pub is_key_char : ℕ → Bool
is_key_char r =
    between b'a' b'z' r || between b'A' b'Z' r || between b'0' b'9' r || r == b'-' || r == b'_'

unfoldable pub valid_idempotency_key : String → Bool
valid_idempotency_key s =
    let n = byte_len (codes s) in
    if ltb n 16 || ltb 128 n then Bool.false else every is_key_char (codes s)

-- the runes of all texts of the metadata
unfoldable pub metadata_runes : Metadata → ℕ
metadata_runes m =
    length (codes m.description) + length (codes m.original_name) + length (codes m.content_format)
