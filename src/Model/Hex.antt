-- ===== src/Model/Hex.antt =====
-- ValidID and ValidDigest of internal/model/model.go, over encoding/hex and strings.ToLower.
use onlybackup.Prelude.{
  ℕ, ◌+◌, ◌-◌, ◌*◌, String, ◌≡◌, Bool, true, false, ◌&&◌, ◌||◌, List, [], ◌∷◌, Option, none, some,
  map, ◌==◌, nat_eq, if◌then◌else◌, length, arith,
}
use onlybackup.Model.Text.{codes, between, same_codes}

-- fromHexChar
unfoldable pub hex_value : ℕ → Option ℕ
hex_value c =
    if between b'0' b'9' c
    then some (c - b'0')
    else if between b'a' b'f' c
    then some (c - b'a' + 10)
    else if between b'A' b'F' c
    then some (c - b'A' + 10)
    else none

pair_value : Option ℕ → Option ℕ → Option (List ℕ) → Option (List ℕ)
pair_value (some a) (some b) (some rest) = some ((a * 16 + b) ∷ rest)
pair_value _ _ _ = none

-- hex.DecodeString; an odd length is an error
unfoldable pub hex_decode : List ℕ → Option (List ℕ)
unfolding hex_value pair_value
hex_decode [] = some []
hex_decode (_ ∷ []) = none
hex_decode (a ∷ b ∷ rest) = pair_value (hex_value a) (hex_value b) (hex_decode rest)

-- strings.ToLower on ASCII, which a text that decodes is
abbrev pub lower : ℕ → ℕ
lower c = if between b'A' b'Z' c then c + 32 else c

lower_hex_of : ℕ → List ℕ → Option (List ℕ) → Bool
lower_hex_of size s none = false
lower_hex_of size s (some bytes) = length bytes == size && same_codes s (map lower s)

-- the two functions differ in the number of bytes only
pub is_lower_hex : ℕ → List ℕ → Bool
unfolding hex_decode lower_hex_of
is_lower_hex size s = lower_hex_of size s (hex_decode s)

unfoldable pub valid_id : String → Bool
unfolding is_lower_hex
valid_id s = is_lower_hex 16 (codes s)

unfoldable pub valid_digest : String → Bool
unfolding is_lower_hex
valid_digest s = is_lower_hex 32 (codes s)

-- The lower-case hexadecimal digits.
abbrev pub hex_digit : ℕ → Bool
hex_digit c = between b'0' b'9' c || between b'a' b'f' c

-- lemmas on the two parts of the test
lower_digit : (c : ℕ) → (hex_digit c ≡ true) → lower c ≡ c
lower_digit c h = ground arith
