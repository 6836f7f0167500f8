-- ===== src/Model/Bytes.antt =====
-- ParseBytes of internal/model/model.go.
pub mod Sizes
use native.Mathlib.Nat.{le-div_iff_mul-le}
use onlybackup.Prelude.{
  ◌≢◌, ◌↔◌, All, ℕ, ◌+◌, ◌-◌, ◌*◌, ◌/◌, ◌^◌, ◌≤◌, ◌<◌, String, ◌≡◌, refl, Bool, true, ◌||◌, List,
  [], ◌∷◌, Option, none, some, ltb, nat_eq, if◌then◌else◌, arith, Result, ok, err, refused,
}
use onlybackup.Model.Text.{codes, every, between, same_codes}

unfoldable pub prepend : ℕ → Option (List ℕ) → Option (List ℕ)
prepend c none = none
prepend c (some cs) = some (c ∷ cs)

-- strings.HasSuffix and strings.TrimSuffix together
unfoldable pub strip_suffix : List ℕ → List ℕ → Option (List ℕ)
unfolding prepend
strip_suffix suffix [] = if same_codes [] suffix then some [] else none
strip_suffix suffix (c ∷ cs) =
    let rest = strip_suffix suffix cs in
    if same_codes (c ∷ cs) suffix then some [] else prepend c rest

-- the table of units, in the order in which the loop tries them
abbrev pub units : List (List ℕ × ℕ)
units =
    (codes "TiB", 2 ^ 40)
    ∷ (codes "GiB", 2 ^ 30)
    ∷ (codes "MiB", 2 ^ 20)
    ∷ (codes "KiB", 2 ^ 10)
    ∷ (codes "TB", 1000000000000)
    ∷ (codes "GB", 1000000000)
    ∷ (codes "MB", 1000000)
    ∷ (codes "KB", 1000)
    ∷ (codes "B", 1)
    ∷ []

unfoldable pub with_unit : List ℕ → ℕ → Option (List ℕ) → List ℕ × ℕ → List ℕ × ℕ
with_unit s m none rest = rest
with_unit s m (some digits) rest = (digits, m)

-- the loop that finds the unit; `break` at the first that fits
unfoldable pub split_unit : List (List ℕ × ℕ) → List ℕ → List ℕ × ℕ
unfolding with_unit strip_suffix
split_unit [] s = (s, 1)
split_unit ((suffix, m) ∷ us) s = with_unit s m (strip_suffix suffix s) (split_unit us s)

abbrev pub limit : ℕ
limit = 2 ^ 60

-- the loop over the digits; n and the bound stay below 2^60, so int64 does not wrap
unfoldable pub scan : ℕ → ℕ → List ℕ → Result ℕ
scan multiplier n [] =
    if ltb (limit / multiplier) n
    then err (refused "dimensione troppo grande")
    else ok (n * multiplier)
scan multiplier n (c ∷ cs) =
    if ltb c b'0' || ltb b'9' c
    then err (refused "dimensione non valida")
    else if ltb ((limit / multiplier - (c - b'0')) / 10) n
    then err (refused "dimensione troppo grande")
    else scan multiplier (n * 10 + (c - b'0')) cs

unfoldable pub parse_number : List ℕ → ℕ → Result ℕ
parse_number [] multiplier = err (refused "dimensione vuota")
parse_number (c ∷ cs) multiplier = scan multiplier 0 (c ∷ cs)

unfoldable pub parse_bytes : String → Result ℕ
unfolding split_unit parse_number scan
parse_bytes s =
    let (digits, multiplier) = split_unit units (codes s) in parse_number digits multiplier

-- The number that decimal digits stand for, with no bound.
abbrev pub value : ℕ → List ℕ → ℕ
value n [] = n
value n (c ∷ cs) = value (n * 10 + (c - b'0')) cs

abbrev pub is_digit : ℕ → Bool
is_digit = between b'0' b'9'

test_gib : parse_bytes "10GiB" ≡ ok 10737418240
unfolding parse_bytes
test_gib = refl

test_bad : parse_bytes "1.5GB" ≡ err (refused "dimensione non valida")
unfolding parse_bytes
test_bad = refl

-- lemma: a successful scan read digits only and returns their value, within the limit
scan-ok :
    (m n : ℕ) (cs : List ℕ) (r : ℕ)
    → scan m n cs ≡ ok r
    → (every is_digit cs ≡ true) × (r ≡ value n cs * m) × (value n cs ≤ limit / m)
unfolding scan
scan-ok m n [] r h = ground arith
scan-ok m n (c ∷ cs) r h = ground (arith, scan-ok m (n * 10 + (c - b'0')) cs r)

value-ge : (n : ℕ) (cs : List ℕ) → n ≤ value n cs
value-ge n [] = omega arith
value-ge n (c ∷ cs) = omega (arith, value-ge (n * 10 + (c - b'0')) cs)

scan_complete :
    (m n : ℕ) (cs : List ℕ)
    → every is_digit cs ≡ true
    → value n cs ≤ limit / m
    → scan m n cs ≡ ok (value n cs * m)
unfolding scan
scan_complete m n [] d h = ground arith
scan_complete m n (c ∷ cs) d h =
    ground (arith, scan_complete m (n * 10 + (c - b'0')) cs, value-ge (n * 10 + (c - b'0')) cs)

pub split_unit-pos :
    (us : List (List ℕ × ℕ)) (s : List ℕ) → All (λ u. 0 < u.1) us → 0 < (split_unit us s).1
unfolding split_unit
split_unit-pos [] s h = omega arith
split_unit-pos ((suffix, m) ∷ us) s h = ground (arith, split_unit-pos us s)

-- the same of the digits and the multiplier that the code finds
abbrev pub IsSize : List ℕ × ℕ → ℕ → Type 0
IsSize (digits, m) r =
    (digits ≢ []) × (every is_digit digits ≡ true) × (r ≡ value 0 digits * m) × (r ≤ limit)

pub parse_number_iff :
    (digits : List ℕ) (m r : ℕ) → 0 < m → (parse_number digits m ≡ ok r) ↔ IsSize (digits, m) r
unfolding parse_number
parse_number_iff [] m r h = (λ e. cc, λ d. absurd (d.0 refl))
parse_number_iff (c ∷ cs) m r h = (
  λ e.
      let s = scan-ok m 0 (c ∷ cs) r e in (λ n. cc, s.0, s.1, rw s.1 ((le-div_iff_mul-le h).0 s.2)),
  λ d. rw d.2 (scan_complete m 0 (c ∷ cs) d.1 ((le-div_iff_mul-le h).1 (rw d.2 at d.3))),
)
