-- ===== src/Gateway.antt =====
-- internal/gateway/gateway.go and the tracker of internal/httpbody/body.go: the public entry point, which forwards
-- an upload to the writer. What its transport answers is an argument.
pub mod Transparent
use onlybackup.Prelude.{
  ℕ, suc, ◌+◌, ◌-◌, ◌*◌, String, Bool, true, false, ◌||◌, not, Option, none, some, List, [], ◌∷◌,
  ◌++◌, length, take, ltb, ◌==◌, nat_eq, string_eq, if◌then◌else◌, any, map,
}
use onlybackup.Model.Validate.{valid_upload_path}
use onlybackup.Ingest.Requests.{
  HttpRequest, Answer, reply, go, ◌>>=◌, ◌>>◌, reply_if, get_header, single_headers, is_repeated,
}

-- maxResponseBytes
abbrev pub max_response : ℕ
max_response = 64 * 1024

-- the capacity of `slots`
abbrev pub capacity : ℕ
capacity = 32

-- Incomplete, of a body of which so many bytes were read; the length is positive when the gateway asks
unfoldable pub is_incomplete : ℕ → ℕ → Bool
is_incomplete content_length read = if content_length == 0 then false else ltb read content_length

-- the request to the writer: the headers of the list, also those that are absent, and Expect
unfoldable pub forward : HttpRequest → HttpRequest
forward r = record r {
  headers =
      map (λ name. (name, get_header name r.headers)) single_headers
      ++ ("Expect", "100-continue") ∷ [];
}

-- ServeHTTP up to the round trip, with the number of slots that are taken; the request goes on if it holds one.
-- `accepts` is whether http.NewRequestWithContext takes the URL with this path.
unfoldable pub prepare : (String → Bool) → HttpRequest → ℕ → Answer HttpRequest
unfolding forward
prepare accepts r slots = do
  reply_if (not (valid_upload_path r.path) || not (r.raw_query == "")) 404 "operazione inesistente"
  reply_if (not (r.method == "POST")) 405 "è consentito soltanto l'invio"
  reply_if (not (ltb slots capacity)) 503 "server occupato"
  reply_if (r.content_length == 0) 411 "richiesto un file non vuoto con dimensione nota"
  reply_if (not (accepts r.path)) 400 "richiesta non valida"
  reply_if (any (is_repeated r.headers) single_headers) 400 "header duplicato"
  go (forward r)

-- What becomes of the body of a response: it is read to its end, an error ends it, or the time for it is over.
pub data BodyEnd : Type 0 where
  read broken late : BodyEnd

-- What RoundTrip returns: a response with its status and body, an error, or nothing after the connection was
-- interrupted and closed.
pub data RoundTrip : Type 0 where
  response : ℕ → List ℕ → BodyEnd → RoundTrip
  transport_error no_result : RoundTrip

-- The answer to the client: the writer's status and bytes, or one of the gateway's own.
pub data Reply : Type 0 where
  relayed : ℕ → List ℕ → Reply
  own : ℕ → String → Reply

-- io.LimitReader over maxResponseBytes+1 bytes, and the test of the length that was read
unfoldable pub relay : ℕ → List ℕ → BodyEnd → Reply
relay status body read =
    let data_read = take (max_response + 1) body in
    if ltb max_response (length data_read)
    then own 502 "esito non confermato: risposta writer non valida"
    else relayed status data_read
relay status body _ = own 502 "esito non confermato: risposta writer non valida"

-- ServeHTTP from the result of the round trip
unfoldable pub answer : RoundTrip → Reply
unfolding relay
answer (response status body ending) = relay status body ending
answer transport_error = own 502 "esito non confermato: writer non disponibile"
answer no_result = own 502 "esito non confermato: writer non disponibile"

-- The writer's side of the transport, on the forwarded request.
unfoldable pub finish : (HttpRequest → RoundTrip) → Answer HttpRequest → Reply
unfolding answer
finish transport (reply status message) = own status message
finish transport (go q) = answer (transport q)

-- ServeHTTP; the slot that it takes is given back by its deferred function on every path
unfoldable pub serve : (String → Bool) → (HttpRequest → RoundTrip) → HttpRequest → ℕ → Reply
unfolding prepare finish
serve accepts transport r slots = finish transport (prepare accepts r slots)
