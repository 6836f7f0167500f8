-- ===== src/Model/Header.antt =====
-- EncodeMetadata and DecodeMetadata of internal/model/model.go. JSON and unpadded base64 are the standard
-- library's, a parameter here.
use onlybackup.Prelude.{
  ℕ, ◌+◌, ◌*◌, ◌/◌, ◌^◌, ◌≤◌, String, ◌≡◌, refl, Bool, true, false, Option, none, some, length, ltb,
  Result, ok, err, refused, from_option, refuse_if, ◌>>=◌, ◌>>◌, arith, >>=-eq-ok, Bool-cases, inl,
  inr, ◌==◌, string_eq, str_iff, ap,
}
use onlybackup.Model.Types.{Metadata}
use onlybackup.Model.Text.{codes}
use onlybackup.Model.Validate.{validate_metadata, metadata_runes}

-- json.Marshal, a decoder that refuses unknown fields, whether anything follows the value that it reads, base64.RawURLEncoding, and
-- the lengths in bytes of the texts.
pub record Codec : Type 1 where
  pub Json : Type 0
  pub marshal : Metadata → Json
  pub unmarshal : Json → Option Metadata
  pub trails : Json → Bool
  pub encode : Json → String
  pub decode : String → Option Json
  pub json_len : Json → ℕ
  pub header_len : String → ℕ

-- What the standard library documents: both pairs are inverse, a rune takes at most six bytes of JSON (as an
-- escape) beside the names of the fields, and three bytes take four characters of base64.
pub record IsCodec (c : Codec) : Type 0 where
  pub unmarshals : (m : Metadata) → c.unmarshal (c.marshal m) ≡ some m
  pub ends : (m : Metadata) → c.trails (c.marshal m) ≡ false
  pub decodes : (j : c.Json) → c.decode (c.encode j) ≡ some j
  pub escapes : (m : Metadata) → c.json_len (c.marshal m) ≤ 6 * metadata_runes m + 64
  pub expands : (j : c.Json) → c.header_len (c.encode j) ≤ (4 * c.json_len j + 2) / 3

check_metadata : Option String → Metadata → Result Metadata
check_metadata none m = ok m
check_metadata (some message) m = err (refused message)

-- EncodeMetadata
unfoldable pub encode_metadata : (c : Codec) → Metadata → Result String
unfolding check_metadata
encode_metadata c m = do
  valid ← check_metadata (validate_metadata m) m
  ok (c.encode (c.marshal valid))

abbrev max_header : ℕ
max_header = 12 * 2 ^ 10

-- DecodeMetadata
unfoldable pub decode_metadata : (c : Codec) → String → Result Metadata
unfolding check_metadata
decode_metadata c h = do
  refuse_if (ltb max_header (c.header_len h)) (refused "metadati troppo grandi")
  j ← from_option (c.decode h) (refused "metadati non validi")
  m ← from_option (c.unmarshal j) (refused "metadati non validi")
  refuse_if (c.trails j) (refused "metadati aggiuntivi non consentiti")
  check_metadata (validate_metadata m) m

-- A valid description has few runes.
valid_size : (m : Metadata) → validate_metadata m ≡ none → metadata_runes m ≤ 1261
unfolding validate_metadata metadata_runes
valid_size m h =
    let texts : (length (codes m.description) ≤ 1000) × (length (codes m.original_name) ≤ 255) =
      ground arith in
    elim (Bool-cases (m.content_format == "")) [
      | inl plain ↦
          let e : m.content_format ≡ "" = (str_iff m.content_format "").0 plain in
          let short = ap (λ t. length (codes t)) e in omega (arith, texts, short)
      | inr coded ↦
          let aged : (m.content_format == "age-v1") ≡ true = ground arith in
          let e : m.content_format ≡ "age-v1" = (str_iff m.content_format "age-v1").0 aged in
          let short = ap (λ t. length (codes t)) e in omega (arith, texts, short)
    ]

-- Whatever metadata EncodeMetadata accepts, DecodeMetadata reads back from the header: the limit on the
-- header's length never refuses them.
pub decode_metadata-encode_metadata :
    (c : Codec) (m : Metadata) (h : String)
    → IsCodec c
    → encode_metadata c m ≡ ok h
    → decode_metadata c h ≡ ok m
unfolding encode_metadata decode_metadata
decode_metadata-encode_metadata c m h laws e =
    let valid : validate_metadata m ≡ none = ground arith in
    let header : h ≡ c.encode (c.marshal m) = ground arith in
    let room : c.header_len (c.encode (c.marshal m)) ≤ max_header =
      omega (arith, laws.escapes m, laws.expands (c.marshal m), valid_size m valid) in
    rw header
      (ground (arith, room, laws.decodes (c.marshal m), laws.unmarshals m, laws.ends m, valid))

check-valid :
    (o : Option String) (m' m : Metadata)
    → validate_metadata m' ≡ o
    → check_metadata o m' ≡ ok m
    → validate_metadata m ≡ none
unfolding check_metadata
check-valid none m' m v e = let same : m' ≡ m = ground arith in rw same at v
check-valid (some t) m' m v e = cc

-- What DecodeMetadata returns is valid.
pub decode_metadata-valid :
    (c : Codec) (h : String) (m : Metadata)
    → decode_metadata c h ≡ ok m
    → validate_metadata m ≡ none
unfolding decode_metadata
decode_metadata-valid c h m e =
    let (u, small, e1) =
      >>=-eq-ok (refuse_if (ltb max_header (c.header_len h)) (refused "metadati troppo grandi")) _
        e in
    let (j, decoded, e2) =
      >>=-eq-ok (from_option (c.decode h) (refused "metadati non validi")) _ e1 in
    let (m', parsed, e3) =
      >>=-eq-ok (from_option (c.unmarshal j) (refused "metadati non validi")) _ e2 in
    let (u2, alone, e4) =
      >>=-eq-ok (refuse_if (c.trails j) (refused "metadati aggiuntivi non consentiti")) _ e3 in
    check-valid (validate_metadata m') m' m refl e4
