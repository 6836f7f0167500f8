-- ===== src/Ingest/Accepted.antt =====
-- What a request has passed when ServeHTTP admits it.
use onlybackup.Prelude.{
  ◌≡◌, ◌≢◌, true, false, not, ◌&&◌, ◌==◌, nat_eq, string_eq, ok, arith, str_iff,
}
use onlybackup.Model.Hex.{valid_digest}
use onlybackup.Model.Validate.{valid_token, valid_idempotency_key, upload_path}
use onlybackup.Model.Header.{Codec, decode_metadata, decode_metadata-valid}
use onlybackup.Store.Reserve.{Request, validate_request}
use onlybackup.Ingest.Requests.{HttpRequest, go, get_header, parse_request}

request_facts :
    (c : Codec) (r : HttpRequest) (q : Request)
    → parse_request c r ≡ go q
    → (decode_metadata c (get_header "X-Onlybackup-Metadata" r.headers) ≡ ok q.metadata)
      × (valid_token q.token ≡ true)
      × ((q.size == 0) ≡ false)
      × (valid_digest q.digest ≡ true)
      × ((not (q.idempotency_key == "") && not (valid_idempotency_key q.idempotency_key)) ≡ false)
      × ((r.path == upload_path && q.idempotency_key == "") ≡ false)
      × (r.method ≡ "POST")
unfolding parse_request
request_facts c r q h = ground (arith, str_iff r.method "POST")

-- A request that the handler goes on with is a POST that passes every check of the catalogue before its
-- transaction, and one on the current path has an idempotency key.
pub parse_request-IsValid :
    (c : Codec) (r : HttpRequest) (q : Request)
    → parse_request c r ≡ go q
    → (validate_request q ≡ ok tt)
      × (r.method ≡ "POST")
      × (r.path ≡ upload_path → q.idempotency_key ≢ "")
unfolding validate_request
parse_request-IsValid c r q h =
    let (decoded, token, size, digest, key, current, method) = request_facts c r q h in
    let valid =
      decode_metadata-valid c (get_header "X-Onlybackup-Metadata" r.headers) q.metadata decoded in
    (
      ground (arith, valid),
      method,
      λ p e. ground (arith, str_iff r.path upload_path, str_iff q.idempotency_key ""),
    )
