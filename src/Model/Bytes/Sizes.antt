-- ===== src/Model/Bytes/Sizes.antt =====
-- What the texts of sizes denote, and that ParseBytes of internal/model/model.go reads exactly these.
use mathlib.Core.Path.{subst}
use onlybackup.Prelude.{
  ◌≢◌, ◌↔◌, All, ℕ, ◌*◌, ◌≤◌, String, ◌≡◌, refl, sym, ap, ◌∙◌, true, false, List, [], ◌∷◌, ◌++◌,
  Option, none, some, nat_eq, arith, ok, inl, inr, Bool-cases,
}
use onlybackup.Model.Text.{codes, every, same_codes}
use onlybackup.Model.Bytes.{
  units, prepend, strip_suffix, with_unit, split_unit, split_unit-pos, parse_bytes,
  parse_number_iff, IsSize, is_digit, value,
}

-- The units of sizes with their bytes; a text without a unit is in bytes.
pub data IsUnit : List ℕ → ℕ → Type 0 where
  none_given : IsUnit [] 1
  byte : IsUnit (codes "B") 1
  kilobyte : IsUnit (codes "KB") 1000
  megabyte : IsUnit (codes "MB") 1000000
  gigabyte : IsUnit (codes "GB") 1000000000
  terabyte : IsUnit (codes "TB") 1000000000000
  kibibyte : IsUnit (codes "KiB") 1024
  mebibyte : IsUnit (codes "MiB") 1048576
  gibibyte : IsUnit (codes "GiB") 1073741824
  tebibyte : IsUnit (codes "TiB") 1099511627776

-- What a text denotes: decimal digits and a unit, with a product of at most 2^60 bytes.
abbrev pub Denotes : List ℕ → ℕ → Type 0
Denotes s r =
    (digits : List ℕ) × (unit : List ℕ) × (m : ℕ) × IsUnit unit m
    × (s ≡ digits ++ unit)
    × (digits ≢ [])
    × (every is_digit digits ≡ true)
    × (r ≡ value 0 digits * m)
    × (r ≤ 1152921504606846976)

append_nil : (xs : List ℕ) → xs ++ [] ≡ xs
append_nil [] = refl
append_nil (x ∷ xs) = ap (λ ys. x ∷ ys) (append_nil xs)

same_codes-eq : (xs ys : List ℕ) → same_codes xs ys ≡ true → xs ≡ ys
same_codes-eq [] [] h = refl
same_codes-eq [] (y ∷ ys) h = absurd (ground arith)
same_codes-eq (x ∷ xs) [] h = absurd (ground arith)
same_codes-eq (x ∷ xs) (y ∷ ys) h =
    let head : x ≡ y = ground arith in
    let rest : same_codes xs ys ≡ true = ground arith in
    rw head (ap (λ zs. y ∷ zs) (same_codes-eq xs ys rest))

prepended :
    (c : ℕ) (o : Option (List ℕ)) (d : List ℕ)
    → prepend c o ≡ some d
    → (d' : List ℕ) × (o ≡ some d') × (d ≡ c ∷ d')
unfolding prepend
prepended c none d h = absurd (ground arith)
prepended c (some d') d h = (d', refl, ground arith)

-- what is left when a suffix is taken off
strip_suffix-append :
    (suffix s digits : List ℕ) → strip_suffix suffix s ≡ some digits → s ≡ digits ++ suffix
unfolding strip_suffix
strip_suffix-append suffix [] digits h =
    let same : same_codes [] suffix ≡ true = ground arith in
    let empty : digits ≡ [] = ground arith in rw empty (same_codes-eq [] suffix same)
strip_suffix-append suffix (c ∷ cs) digits h = elim (Bool-cases (same_codes (c ∷ cs) suffix)) [
  | inl whole ↦
      let empty : digits ≡ [] = ground arith in rw empty (same_codes-eq (c ∷ cs) suffix whole)
  | inr longer ↦
      let (d', found, same) = prepended c (strip_suffix suffix cs) digits (ground arith) in
      rw same (ap (λ zs. c ∷ zs) (strip_suffix-append suffix cs d' found))
]

with_unit-append :
    (suffix : List ℕ) (m : ℕ) (s : List ℕ) (o : Option (List ℕ)) (rest : List ℕ × ℕ)
    → IsUnit suffix m
    → ((d : List ℕ) → o ≡ some d → s ≡ d ++ suffix)
    → ((unit : List ℕ) × IsUnit unit rest.1 × (s ≡ rest.0 ++ unit))
    → (unit : List ℕ) × IsUnit unit (with_unit s m o rest).1
      × (s ≡ (with_unit s m o rest).0 ++ unit)
unfolding with_unit
with_unit-append suffix m s none rest u strip h = h
with_unit-append suffix m s (some d) rest u strip h = (suffix, u, strip d refl)

-- The digits and the multiplier that the loop finds are those of a unit of the table, or of none.
split_unit-append :
    (us : List (List ℕ × ℕ)) (s : List ℕ)
    → All (λ u. IsUnit u.0 u.1) us
    → (unit : List ℕ) × IsUnit unit (split_unit us s).1 × (s ≡ (split_unit us s).0 ++ unit)
unfolding split_unit
split_unit-append [] s h = ([], none_given, sym (append_nil s))
split_unit-append ((suffix, m) ∷ us) s h =
    with_unit-append suffix m s (strip_suffix suffix s) (split_unit us s) h.0
      (strip_suffix-append suffix s) (split_unit-append us s h.1)

prepend_all : List ℕ → Option (List ℕ) → Option (List ℕ)
prepend_all ds none = none
prepend_all ds (some t) = some (ds ++ t)

prepend_all-nil : (o : Option (List ℕ)) → o ≡ prepend_all [] o
unfolding prepend_all
prepend_all-nil none = refl
prepend_all-nil (some t) = refl

prepend-prepend_all :
    (c : ℕ) (cs : List ℕ) (o : Option (List ℕ))
    → prepend c (prepend_all cs o) ≡ prepend_all (c ∷ cs) o
unfolding prepend prepend_all
prepend-prepend_all c cs none = refl
prepend-prepend_all c cs (some t) = refl

-- the suffix begins with no digit
abbrev IsSuffix : List ℕ → Type 0
IsSuffix [] = (is_digit 0 ≡ true)
IsSuffix (u ∷ us) = (is_digit u ≡ false)

-- Digits in front of a text are not part of a suffix.
strip_suffix-digits :
    (suffix digits tail : List ℕ)
    → IsSuffix suffix
    → every is_digit digits ≡ true
    → strip_suffix suffix (digits ++ tail) ≡ prepend_all digits (strip_suffix suffix tail)
unfolding strip_suffix
strip_suffix-digits suffix [] tail h d = prepend_all-nil (strip_suffix suffix tail)
strip_suffix-digits [] (c ∷ cs) tail h d = absurd (ground arith)
strip_suffix-digits (u ∷ us) (c ∷ cs) tail h d =
    let digit : is_digit c ≡ true = ground arith in
    let more : every is_digit cs ≡ true = ground arith in
    let apart : same_codes (c ∷ (cs ++ tail)) (u ∷ us) ≡ false = ground arith in
    rw apart (
      ap (prepend c) (strip_suffix-digits (u ∷ us) cs tail h more)
      ∙ prepend-prepend_all c cs (strip_suffix (u ∷ us) tail))

abbrev after_digits : List ℕ → List ℕ × ℕ → List ℕ × ℕ
after_digits digits (ds, m) = (digits ++ ds, m)

with_unit-digits :
    (digits tail : List ℕ) (m : ℕ) (o : Option (List ℕ)) (rest : List ℕ × ℕ)
    → with_unit (digits ++ tail) m (prepend_all digits o) (after_digits digits rest)
      ≡ after_digits digits (with_unit tail m o rest)
unfolding with_unit prepend_all
with_unit-digits digits tail m none rest = refl
with_unit-digits digits tail m (some t) rest = refl

split_unit-digits :
    (us : List (List ℕ × ℕ)) (digits tail : List ℕ)
    → All (λ u. IsSuffix u.0) us
    → every is_digit digits ≡ true
    → split_unit us (digits ++ tail) ≡ after_digits digits (split_unit us tail)
unfolding split_unit
split_unit-digits [] digits tail h d = refl
split_unit-digits ((suffix, m) ∷ us) digits tail h d =
    rw (strip_suffix-digits suffix digits tail h.0 d) (
      rw (split_unit-digits us digits tail h.1 d)
        (with_unit-digits digits tail m (strip_suffix suffix tail) (split_unit us tail)))

-- A unit alone is found in the table.
split_unit-unit : {unit : List ℕ} {m : ℕ} → IsUnit unit m → split_unit units unit ≡ ([], m)
unfolding split_unit with_unit strip_suffix prepend
split_unit-unit none_given = refl
split_unit-unit byte = refl
split_unit-unit kilobyte = refl
split_unit-unit megabyte = refl
split_unit-unit gigabyte = refl
split_unit-unit terabyte = refl
split_unit-unit kibibyte = refl
split_unit-unit mebibyte = refl
split_unit-unit gibibyte = refl
split_unit-unit tebibyte = refl

units-IsUnit : All (λ u. IsUnit u.0 u.1) units
units-IsUnit = (
  tebibyte,
  (gibibyte, (mebibyte, (kibibyte, (terabyte, (gigabyte, (megabyte, (kilobyte, (byte, tt)))))))),
)

units-IsSuffix : All (λ u. IsSuffix u.0) units
units-IsSuffix = (refl, (refl, (refl, (refl, (refl, (refl, (refl, (refl, (refl, tt)))))))))

split_unit-sized :
    (digits unit : List ℕ) (m : ℕ)
    → IsUnit unit m
    → every is_digit digits ≡ true
    → split_unit units (digits ++ unit) ≡ (digits, m)
split_unit-sized digits unit m u d =
    split_unit-digits units digits unit units-IsSuffix d
    ∙ ap (after_digits digits) (split_unit-unit u)
    ∙ ap (λ ds. (ds, m)) (append_nil digits)

Denotes-iff : (s : List ℕ) (r : ℕ) → IsSize (split_unit units s) r ↔ Denotes s r
Denotes-iff s r = (
  λ z.
      let (unit, u, parts) = split_unit-append units s units-IsUnit in
      ((split_unit units s).0, unit, (split_unit units s).1, u, parts, z.0, z.1, z.2, z.3),
  λ d.
      let (digits, unit, m, u, parts, filled, decimal, product, small) = d in
      let found : split_unit units s ≡ (digits, m) =
        rw parts (split_unit-sized digits unit m u decimal) in
      subst (λ x. IsSize x r) (sym found) (filled, decimal, product, small),
)

-- ParseBytes accepts a text exactly when it is decimal digits followed by one of the units, or by none, whose
-- value times the bytes of the unit is at most 2^60, and then it returns that product.
pub parse_bytes_iff : (s : String) (r : ℕ) → (parse_bytes s ≡ ok r) ↔ Denotes (codes s) r
unfolding parse_bytes
parse_bytes_iff s r =
    let u = split_unit units (codes s) in
    let sized = parse_number_iff u.0 u.1 r (split_unit-pos units (codes s) (omega arith)) in
    let means = Denotes-iff (codes s) r in (λ e. means.0 (sized.0 e), λ d. sized.1 (means.1 d))
