-- ===== src/Ingest/Requests.antt =====
-- ServeHTTP of internal/ingest/writer.go up to the admission, and AdmissionError.
use onlybackup.Prelude.{
  ℕ, zero, suc, String, Bool, true, false, ◌&&◌, ◌||◌, not, Option, none, some, List, [], ◌∷◌, ltb,
  ◌==◌, nat_eq, string_eq, Result, Error, ok, err, refused, unauthorized, quota_exceeded,
  rate_exceeded, concurrent_exceeded, size_refused, disk_full, idempotency_conflict,
  idempotency_in_progress, idempotency_unavailable, busy, select, count, any,
}
use onlybackup.Model.Types.{Metadata, status_eq}
use onlybackup.Model.Text.{starts_with}
use onlybackup.Model.Hex.{valid_digest}
use onlybackup.Model.Validate.{valid_upload_path, upload_path, valid_token, valid_idempotency_key}
use onlybackup.Model.Header.{Codec, decode_metadata}
use onlybackup.Store.Reserve.{Request}

-- A request, with its headers by canonical name. A length that is not positive, or unknown, is 0.
pub record HttpRequest : Type 0 where
  pub path : String
  pub raw_query : String
  pub method : String
  pub headers : List (String × String)
  pub content_length : ℕ

-- An answer with a status and a message, or what the handler goes on with.
pub data Answer {ℓ} (A : Type ℓ) : Type ℓ where
  reply : ℕ → String → Answer A
  go : A → Answer A

infixl 5 ◌>>=◌ ◌>>◌
abbrev pub ◌>>=◌ {ℓ κ} : {X : Type ℓ} {Y : Type κ} → Answer X → (X → Answer Y) → Answer Y
reply status message >>= next = reply status message
go x >>= next = next x

abbrev pub ◌>>◌ {ℓ} : {Y : Type ℓ} → Answer (Unit {0}) → Answer Y → Answer Y
check >> rest = check >>= λ _. rest

abbrev pub reply_if : Bool → ℕ → String → Answer (Unit {0})
reply_if true status message = reply status message
reply_if false status message = go tt

-- r.Header.Get, where an absent header is the empty text
first_value : Option (String × String) → String
first_value none = ""
first_value (some (name, value)) = value

unfoldable pub get_header : String → List (String × String) → String
unfolding first_value
get_header name headers = first_value (select (λ h. h.0 == name) headers)

unfoldable pub is_repeated : List (String × String) → String → Bool
is_repeated headers name = ltb 1 (count (λ h. h.0 == name) headers)

abbrev pub single_headers : List String
single_headers =
    "Authorization" ∷ "Content-Type" ∷ "Content-Encoding" ∷ "X-Onlybackup-Metadata"
    ∷ "X-Onlybackup-Sha256" ∷ "X-Onlybackup-Idempotency-Key" ∷ []

drop_runes : ℕ → String → String
drop_runes zero s = s
drop_runes (suc n) String.[] = String.[]
drop_runes (suc n) (String.◌∷◌ c s) = drop_runes n s

abbrev bearer : String
bearer = "Bearer "

decoded : Result Metadata → Answer Metadata
decoded (ok m) = go m
decoded (err (refused message)) = reply 400 message
decoded (err _) = reply 400 "metadati non validi"

-- ServeHTTP before Admit
unfoldable pub parse_request : (c : Codec) → HttpRequest → Answer Request
unfolding get_header is_repeated drop_runes decoded
parse_request c r = do
  reply_if (not (valid_upload_path r.path) || not (r.raw_query == "")) 404 "operazione inesistente"
  reply_if (not (r.method == "POST")) 405 "è consentito soltanto l'invio"
  reply_if (any (is_repeated r.headers) single_headers) 400 "header duplicato"
  let auth = get_header "Authorization" r.headers
  let token = drop_runes 7 auth
  reply_if (not (starts_with auth bearer) || not (valid_token token)) 401
      "chiave non valida o revocata"
  reply_if (r.content_length == 0) 411 "richiesto un file non vuoto con dimensione nota"
  reply_if
      (not (get_header "Content-Type" r.headers == "application/octet-stream")
        || not (get_header "Content-Encoding" r.headers == ""))
      415 "inviare il contenuto grezzo del file"
  m ← decoded (decode_metadata c (get_header "X-Onlybackup-Metadata" r.headers))
  let digest = get_header "X-Onlybackup-Sha256" r.headers
  reply_if (not (valid_digest digest)) 400 "SHA-256 richiesto e non valido"
  let key = get_header "X-Onlybackup-Idempotency-Key" r.headers
  reply_if (r.path == upload_path && key == "") 400 "chiave di idempotenza richiesta"
  reply_if (not (key == "") && not (valid_idempotency_key key)) 400
      "chiave di idempotenza non valida"
  go (record {
    token = token;
    metadata = m;
    size = r.content_length;
    digest = digest;
    idempotency_key = key;
  })

-- AdmissionError; `busy` is ErrBusy
unfoldable pub admission_error : Error → ℕ × String
admission_error unauthorized = (401, "chiave non valida o revocata")
admission_error quota_exceeded = (429, "spazio disponibile per la chiave insufficiente")
admission_error rate_exceeded = (429, "numero massimo di invii nelle ultime 24 ore raggiunto")
admission_error concurrent_exceeded = (429, "numero massimo di upload simultanei raggiunto")
admission_error size_refused = (413, "dimensione del backup non consentita")
admission_error disk_full = (507, "spazio libero del server insufficiente")
admission_error idempotency_conflict =
    (409, "chiave di idempotenza gia usata per un deposito diverso")
admission_error idempotency_in_progress =
    (409, "deposito con la stessa chiave di idempotenza ancora in corso")
admission_error idempotency_unavailable = (
  410,
  "deposito gia sottoposto a retention e non piu disponibile; usare una nuova chiave di idempotenza",
)
admission_error busy = (503, "server occupato")
admission_error _ = (503, "impossibile prenotare lo spazio")
