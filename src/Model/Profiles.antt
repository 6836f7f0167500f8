-- ===== src/Model/Profiles.antt =====
-- Profile.Validate and DefaultProfiles of internal/model/model.go.
use onlybackup.Prelude.{
  ℕ, ◌*◌, ◌^◌, String, ◌≡◌, ◌||◌, not, List, [], ◌∷◌, Option, none, some, ltb, ◌==◌, nat_eq,
  if◌then◌else◌, length, All, refl,
}
use onlybackup.Model.Types.{Profile}
use onlybackup.Model.Text.{codes, every, is_blank, is_control}

unfoldable pub validate_profile : Profile → Option String
unfolding is_blank is_control
validate_profile p =
    if is_blank p.name || ltb 100 (length (codes p.name))
    then some "nome profilo obbligatorio, massimo 100 caratteri"
    else if not (every (λ r. not (is_control r)) (codes p.name))
    then some "nome profilo non valido"
    else if p.total_bytes == 0
        || ltb (2 ^ 60) p.total_bytes
        || p.max_backup_bytes == 0
        || ltb p.total_bytes p.max_backup_bytes
        || ltb p.uploads_per_day 1
        || ltb 1000000 p.uploads_per_day
        || ltb p.concurrent 1
        || ltb 1024 p.concurrent
    then some "limiti non validi"
    else none

abbrev pub gib : ℕ
gib = 2 ^ 30

abbrev profile : String → ℕ → ℕ → ℕ → ℕ → Profile
profile name total largest daily concurrent = record {
  name = name;
  total_bytes = total;
  max_backup_bytes = largest;
  uploads_per_day = daily;
  concurrent = concurrent;
}

unfoldable pub default_profiles : List Profile
default_profiles =
    profile "XS" (10 * gib) gib 6 1
    ∷ profile "S" (100 * gib) (10 * gib) 12 1
    ∷ profile "M" (500 * gib) (20 * gib) 24 2
    ∷ profile "L" (2000 * gib) (100 * gib) 48 4
    ∷ profile "XL" (10000 * gib) (500 * gib) 96 8
    ∷ []

-- Every profile that a new archive starts with passes validation.
pub default_profiles-valid : All (λ p. validate_profile p ≡ none) default_profiles
unfolding default_profiles validate_profile
default_profiles-valid = (refl, (refl, (refl, (refl, (refl, tt)))))
