-- ===== src/Model/Text.antt =====
-- What the source uses of strings, unicode and utf8. A text is a sequence of Unicode scalar values;
-- byte strings that are not UTF-8, which every validation refuses, are not represented.
use Prim.Native.Char.{code}
use Prim.Native.String.{◌++◌}
pub use text.Mathlib.Text.{starts_with}
use onlybackup.Prelude.{
  zero, suc, ◌≡◌, refl, ℕ, ◌+◌, ◌/◌, ◌%◌, String, Bool, true, false, ◌&&◌, ◌||◌, List, [], ◌∷◌, ltb,
  leb, ◌==◌, string_eq, if◌then◌else◌, nat_eq,
}

-- `for _, r := range s`
abbrev pub codes : String → List ℕ
codes String.[] = []
codes (String.◌∷◌ c s) = code c ∷ codes s

abbrev pub every : (ℕ → Bool) → List ℕ → Bool
every p [] = true
every p (c ∷ cs) = p c && every p cs

abbrev pub between : ℕ → ℕ → ℕ → Bool
between lo hi c = leb lo c && leb c hi

-- unicode.IsSpace
pub is_space : ℕ → Bool
is_space c =
    between 9 13 c
    || c == 32
    || c == 0x85
    || c == 0xa0
    || c == 0x1680
    || between 0x2000 0x200a c
    || c == 0x2028
    || c == 0x2029
    || c == 0x202f
    || c == 0x205f
    || c == 0x3000

-- strings.TrimSpace(s) == ""
unfoldable pub is_blank : String → Bool
unfolding is_space
is_blank s = every is_space (codes s)

-- unicode.IsControl
unfoldable pub is_control : ℕ → Bool
is_control c = leb c 0x1f || between 0x7f 0x9f c

trim_left : String → String
trim_left String.[] = ""
trim_left (String.◌∷◌ c s) = if is_space (code c) then trim_left s else String.◌∷◌ c s

trim_right : String → String
trim_right String.[] = ""
trim_right (String.◌∷◌ c s) =
    let rest = trim_right s in if is_space (code c) && rest == "" then "" else String.◌∷◌ c rest

-- strings.TrimSpace
unfoldable pub trim : String → String
unfolding trim_left trim_right is_space
trim s = trim_right (trim_left s)

trim_test : trim " a b\t" ≡ "a b"
unfolding trim
trim_test = refl

abbrev pub fold_case : ℕ → ℕ
fold_case c = if between b'A' b'Z' c then c + 32 else c

-- SQLite's LIKE 'prefix%', which does not tell the cases of ASCII letters apart
unfoldable pub like_prefix : List ℕ → List ℕ → Bool
like_prefix [] cs = true
like_prefix (p ∷ ps) [] = false
like_prefix (p ∷ ps) (c ∷ cs) = fold_case p == fold_case c && like_prefix ps cs

abbrev pub same_codes : List ℕ → List ℕ → Bool
same_codes [] [] = true
same_codes (a ∷ as') (b ∷ bs) = a == b && same_codes as' bs
same_codes _ _ = false

-- the bytes that UTF-8 takes for a code point
abbrev pub utf8_width : ℕ → ℕ
utf8_width c = if ltb c 0x80 then 1 else if ltb c 0x800 then 2 else if ltb c 0x10000 then 3 else 4

-- len(s), in bytes
abbrev pub byte_len : List ℕ → ℕ
byte_len [] = 0
byte_len (c ∷ cs) = utf8_width c + byte_len cs

-- s + t
abbrev pub concat : String → String → String
concat s t = s ++ t

digit : ℕ → String
digit zero = "0"
digit (suc zero) = "1"
digit (suc (suc zero)) = "2"
digit (suc (suc (suc zero))) = "3"
digit (suc (suc (suc (suc zero)))) = "4"
digit (suc (suc (suc (suc (suc zero))))) = "5"
digit (suc (suc (suc (suc (suc (suc zero)))))) = "6"
digit (suc (suc (suc (suc (suc (suc (suc zero))))))) = "7"
digit (suc (suc (suc (suc (suc (suc (suc (suc zero)))))))) = "8"
digit _ = "9"

-- the fuel is the number itself, and each round divides it by ten
decimal_rounds : ℕ → ℕ → String
unfolding digit
decimal_rounds zero n = digit n
decimal_rounds (suc fuel) n =
    let rest = decimal_rounds fuel (n / 10) in
    if ltb n 10 then digit n else concat rest (digit (n % 10))

-- fmt's %d
unfoldable pub decimal : ℕ → String
unfolding decimal_rounds
decimal n = decimal_rounds n n

decimal_test : decimal 1304 ≡ "1304"
unfolding decimal
decimal_test = refl
