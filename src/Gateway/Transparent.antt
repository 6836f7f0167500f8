-- ===== src/Gateway/Transparent.antt =====
-- What passes the gateway of a request and of its answer.
use onlybackup.Prelude.{
  String, Bool, ℕ, zero, suc, ◌+◌, ◌≤◌, ◌<◌, ◌≡◌, refl, sym, ap, ◌∙◌, false, List, [], ◌∷◌, length,
  take, ltb, nat_eq, string_eq, any, select, count, if◌then◌else◌, arith,
}
use onlybackup.Model.Header.{Codec}
use onlybackup.Ingest.Requests.{
  HttpRequest, Answer, reply, go, get_header, single_headers, is_repeated, parse_request,
}
use onlybackup.Gateway.{
  max_response, capacity, forward, prepare, read, broken, late, RoundTrip, response, relayed, own,
  transport_error, no_result, relay, answer, finish, serve,
}

-- a forwarded request has each header once, with its value
forward-headers :
    (r : HttpRequest)
    → (any (is_repeated (forward r).headers) single_headers ≡ false)
      × (get_header "Authorization" (forward r).headers ≡ get_header "Authorization" r.headers)
      × (get_header "Content-Type" (forward r).headers ≡ get_header "Content-Type" r.headers)
      × (get_header "Content-Encoding" (forward r).headers
          ≡ get_header "Content-Encoding" r.headers)
      × (get_header "X-Onlybackup-Metadata" (forward r).headers
          ≡ get_header "X-Onlybackup-Metadata" r.headers)
      × (get_header "X-Onlybackup-Sha256" (forward r).headers
          ≡ get_header "X-Onlybackup-Sha256" r.headers)
      × (get_header "X-Onlybackup-Idempotency-Key" (forward r).headers
          ≡ get_header "X-Onlybackup-Idempotency-Key" r.headers)
unfolding forward
forward-headers r = (
  unfold is_repeated any count in refl,
  unfold get_header select in refl,
  unfold get_header select in refl,
  unfold get_header select in refl,
  unfold get_header select in refl,
  unfold get_header select in refl,
  unfold get_header select in refl,
)

prepared :
    (accepts : String → Bool) (r q : HttpRequest) (slots : ℕ)
    → prepare accepts r slots ≡ go q
    → (q ≡ forward r) × (any (is_repeated r.headers) single_headers ≡ false)
unfolding prepare
prepared accepts r q slots h = (ground arith, ground arith)

room :
    (accepts : String → Bool) (r q : HttpRequest) (slots : ℕ)
    → prepare accepts r slots ≡ go q
    → slots < capacity
unfolding prepare
room accepts r q slots h = ground arith

-- The writer finds in a forwarded request what it would have found in the request that the client sent.
pub prepare-IsTransparent :
    (c : Codec) (accepts : String → Bool) (r q : HttpRequest) (slots : ℕ)
    → prepare accepts r slots ≡ go q
    → parse_request c q ≡ parse_request c r
unfolding parse_request forward
prepare-IsTransparent c accepts r q slots h =
    let (same, single) = prepared accepts r q slots h in
    let (once, auth, kind, encoding, description, digest, key) = forward-headers r in
    rw same (
      rw single
        (rw once (rw auth (rw kind (rw encoding (rw description (rw digest (rw key refl))))))))

take_all : (n : ℕ) (xs : List ℕ) → length (take n xs) < n → take n xs ≡ xs
take_all zero xs h = absurd (omega (arith, h))
take_all (suc n) [] h = refl
take_all (suc n) (x ∷ xs) h = ap (λ ys. x ∷ ys) (take_all n xs (omega (arith, h)))

relayed_whole :
    (n : ℕ) (status given : ℕ) (body bytes : List ℕ)
    → (if ltb n (length (take (n + 1) body))
        then own 502 "esito non confermato: risposta writer non valida"
        else relayed status (take (n + 1) body))
      ≡ relayed given bytes
    → (status ≡ given) × (body ≡ bytes) × (length bytes ≤ n)
relayed_whole n status given body bytes h =
    let short : length (take (n + 1) body) ≤ n = ground arith in
    let whole : take (n + 1) body ≡ body = take_all (n + 1) body (omega (arith, short)) in
    let same : take (n + 1) body ≡ bytes = ground arith in
    (ground arith, sym whole ∙ same, omega (arith, short, ap length same))

answer-whole :
    (t : RoundTrip) (status : ℕ) (bytes : List ℕ)
    → answer t ≡ relayed status bytes
    → (t ≡ response status bytes read) × (length bytes ≤ max_response)
unfolding answer relay
answer-whole (response s body read) status bytes h =
    let (code, same, short) = relayed_whole max_response s status body bytes h in
    (rw code (rw same refl), short)
answer-whole (response s body broken) status bytes h = absurd (ground arith)
answer-whole (response s body late) status bytes h = absurd (ground arith)
answer-whole transport_error status bytes h = absurd (ground arith)
answer-whole no_result status bytes h = absurd (ground arith)

finished :
    (accepts : String → Bool) (transport : HttpRequest → RoundTrip) (r : HttpRequest)
    (slots status : ℕ) (bytes : List ℕ) (a : Answer HttpRequest)
    → prepare accepts r slots ≡ a
    → finish transport a ≡ relayed status bytes
    → (prepare accepts r slots ≡ go (forward r))
      × (transport (forward r) ≡ response status bytes read)
      × (length bytes ≤ max_response)
      × (slots < capacity)
unfolding finish
finished accepts transport r slots status bytes (reply code message) e h = absurd (ground arith)
finished accepts transport r slots status bytes (go q) e h =
    let (same, single) = prepared accepts r q slots e in
    let (whole, short) = answer-whole (transport q) status bytes h in
    (rw (sym same) e, rw (sym same) whole, short, room accepts r q slots e)

-- An answer of the writer that reaches the client is the writer's whole answer to the forwarded request, which
-- passed the checks, with its status and at most 64 KiB; everything else the client gets is an answer of the
-- gateway's own.
pub serve-IsFaithful :
    (accepts : String → Bool) (transport : HttpRequest → RoundTrip) (r : HttpRequest)
    (slots status : ℕ) (bytes : List ℕ)
    → serve accepts transport r slots ≡ relayed status bytes
    → (prepare accepts r slots ≡ go (forward r))
      × (transport (forward r) ≡ response status bytes read)
      × (length bytes ≤ max_response)
      × (slots < capacity)
unfolding serve finish
serve-IsFaithful accepts transport r slots status bytes h =
    finished accepts transport r slots status bytes (prepare accepts r slots) refl h
