-- ===== src/Tests/Devices.antt =====
-- A codec, a network and a file system that obey their laws, for the runs of the writer.
use onlybackup.Prelude.{
  ℕ, zero, suc, ◌≤◌, ◌≡◌, refl, ap, ◌∙◌, String, ◌==◌, nat_eq, if◌then◌else◌, false, Option, none,
  some, List, [], ◌∷◌, ◌++◌, length, take, arith,
}
use Prim.Native.Char.{Char, code}
use onlybackup.Model.Types.{Metadata}
use onlybackup.Model.Header.{Codec, IsCodec}
use onlybackup.Ingest.Copy.{Devices, IsDevices, ReadError, eof}

-- two texts in one: a mark before each rune of the first, another mark, and the second
unfoldable pub pair : String → String → String
pair String.[] t = String.◌∷◌ "." t
pair (String.◌∷◌ c s) t = String.◌∷◌ "+" (String.◌∷◌ c (pair s t))

unfoldable pub with_rune : Char → Option (String × String) → Option (String × String)
with_rune c none = none
with_rune c (some (s, t)) = some (String.◌∷◌ c s, t)

unfoldable pub unpair : String → Option (String × String)
unpair String.[] = none
unpair (String.◌∷◌ m String.[]) = if code m == b'.' then some (String.[], String.[]) else none
unpair (String.◌∷◌ m (String.◌∷◌ c s)) =
    let rest = unpair s in
    if code m == b'.' then some (String.[], String.◌∷◌ c s) else with_rune c rest

unpair-pair : (s t : String) → unpair (pair s t) ≡ some (s, t)
unfolding pair unpair with_rune
unpair-pair String.[] String.[] = refl
unpair-pair String.[] (String.◌∷◌ c t) = refl
unpair-pair (String.◌∷◌ c s) t = ap (with_rune c) (unpair-pair s t)

unfoldable pub to_text : Metadata → String
to_text m = pair m.description (pair m.original_name m.content_format)

unfoldable pub of_rest : String → Option (String × String) → Option Metadata
of_rest d none = none
of_rest d (some (name, format)) =
    some (record { description = d; original_name = name; content_format = format })

unfoldable pub of_parts : Option (String × String) → Option Metadata
unfolding of_rest
of_parts none = none
of_parts (some (d, rest)) = of_rest d (unpair rest)

unfoldable pub of_text : String → Option Metadata
of_text s = of_parts (unpair s)

of_text-to_text : (m : Metadata) → of_text (to_text m) ≡ some m
unfolding of_text to_text of_parts of_rest
of_text-to_text m =
    ap of_parts (unpair-pair m.description (pair m.original_name m.content_format))
    ∙ ap (of_rest m.description) (unpair-pair m.original_name m.content_format)

abbrev pub codec : Codec
codec = record {
  Json = String;
  marshal = to_text;
  unmarshal = of_text;
  trails = λ m. false;
  encode = λ m. m;
  decode = λ m. some m;
  json_len = λ m. 0;
  header_len = λ m. 0;
}

pub codec-IsCodec : IsCodec codec
codec-IsCodec = record {
  unmarshals = of_text-to_text;
  ends = λ m. refl;
  decodes = λ j. refl;
  escapes = λ m. omega arith;
  expands = λ j. omega arith;
}

abbrev pub drop : ℕ → List ℕ → List ℕ
drop zero xs = xs
drop (suc n) [] = []
drop (suc n) (x ∷ xs) = drop n xs

abbrev at_end : List ℕ → Option ReadError
at_end [] = some eof
at_end (x ∷ xs) = none

-- A body that is there at once, and a file that takes everything.
abbrev pub devices : Devices
devices = record {
  R = List ℕ;
  S = List ℕ;
  read = λ n r. record { bytes = take n r; error = at_end r; rest = drop n r };
  write = λ bs s. record { written = length bs; failed = false; next = s ++ bs };
  content = λ s. s;
}

length-take_at_most : (n : ℕ) (xs : List ℕ) → length (take n xs) ≤ n
length-take_at_most zero xs = omega arith
length-take_at_most (suc n) [] = omega arith
length-take_at_most (suc n) (x ∷ xs) = omega (arith, length-take_at_most n xs)

take-length : (xs : List ℕ) → take (length xs) xs ≡ xs
take-length [] = refl
take-length (x ∷ xs) = ap (λ ys. x ∷ ys) (take-length xs)

pub devices-IsDevices : IsDevices devices
devices-IsDevices = record {
  asked = λ n r. length-take_at_most n r;
  prefix_taken = λ bs s. omega arith;
  appended = λ bs s. rw (take-length bs) refl;
}
