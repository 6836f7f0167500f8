-- ===== src/Policy/Select.antt =====
-- Select of internal/policy/policy.go: which backups the automatic retention proposes.
pub mod Shape
pub mod Copies
pub mod Scope
use onlybackup.Prelude.{
  ℕ, zero, ◌+◌, ◌-◌, ◌^◌, ◌%◌, String, Bool, true, false, ◌&&◌, ◌||◌, not, Option, none, some, List,
  [], ◌∷◌, ◌++◌, ltb, leb, ◌==◌, nat_eq, string_eq, if◌then◌else◌, Result, ok, err, refused,
  from_option, refuse_if, ◌>>=◌, ◌>>◌, count,
}
use onlybackup.Model.Types.{
  Instant, Backup, Status, complete, deleting, quarantined, purging, status_eq,
}
use onlybackup.Policy.Protection.{local_midnight, not_before_cutoff, backup_time, minimum_days}
use onlybackup.Policy.Capacity.{
  Filesystem, used_basis_points, filesystem_bytes, max_uint64, bytes_to_free,
}
use onlybackup.Catalog.Tables.{Location}

pub record SelectionInput : Type 0 where
  pub now : Instant
  pub timezone : String
  pub filesystem : Filesystem
  pub threshold : ℕ
  pub retention_days : ℕ
  pub key_retention_days : String → Option ℕ
  pub expected_bytes : ℕ
  pub pending_purge_bytes : ℕ
  pub backups : List Backup
  pub revoked : String → Bool

pub record Selection : Type 0 where
  pub eligible : Bool
  pub reason : String
  pub used_basis_points : ℕ
  pub bytes_needed : ℕ
  pub selected_bytes : ℕ
  pub shortfall_bytes : ℕ
  pub candidates : List Backup

-- the statuses of backups whose presence decides about a day
abbrev in_scope : Status → Bool
in_scope s = s == complete || s == deleting || s == quarantined || s == purging

abbrev days_or : ℕ → Option ℕ → ℕ
days_or default none = default
days_or default (some days) = days

abbrev pub minimum_for : SelectionInput → Backup → ℕ
minimum_for input b = days_or input.retention_days (input.key_retention_days b.key_id)

-- The backups of one civil day.
abbrev pub Group : Type 0
Group = ℕ × List Backup

-- byDay with its sorted list of days: the date texts sort like the day numbers
unfoldable pub add_to_day : ℕ → Backup → List Group → List Group
add_to_day day b [] = (day, b ∷ []) ∷ []
add_to_day day b ((other, items) ∷ groups) =
    if day == other
    then (other, items ++ b ∷ []) ∷ groups
    else if ltb day other
    then (day, b ∷ []) ∷ (other, items) ∷ groups
    else (other, items) ∷ add_to_day day b groups

-- a backup that is too young for selection, by the midnight of its civil day
unfoldable pub is_young : Location → SelectionInput → Backup → Bool
is_young loc input b =
    let day = local_midnight loc (backup_time b) in
    not_before_cutoff loc input.now (minimum_for input b) day
    || not (ltb day (local_midnight loc input.now))

unfoldable pub place : Location → SelectionInput → Backup → List Group → Result (List Group)
place loc input b groups =
    if not (in_scope b.status)
    then ok groups
    else if ltb (minimum_for input b) minimum_days || ltb 365000 (minimum_for input b)
    then err (refused "minimo di conservazione non valido")
    else if is_young loc input b
    then ok groups
    else ok (add_to_day (loc.day (local_midnight loc (backup_time b))) b groups)

unfoldable pub collect : Location → SelectionInput → List Backup → List Group → Result (List Group)
unfolding place
collect loc input [] groups = ok groups
collect loc input (b ∷ bs) groups = do
  groups' ← place loc input b groups
  collect loc input bs groups'

unfoldable pub key_count : String → List Backup → ℕ
key_count key = count (λ b. b.key_id == key)

unfoldable pub complete_count : String → List Backup → ℕ
complete_count key = count (λ b. b.status == complete && b.key_id == key)

-- counts, dayCounts
abbrev pub Counts : Type 0
Counts = String → ℕ

-- the test of one backup of a day: `counts - dayCounts < 1` is `counts ≤ dayCounts`
unfoldable pub is_takeable : (String → Bool) → Counts → List Backup → Backup → Bool
is_takeable revoked counts items b =
    b.status == complete
    && not (revoked b.key_id)
    && ltb (key_count b.key_id items) (counts b.key_id)

unfoldable pub every_backup : (Backup → Bool) → List Backup → Bool
every_backup p [] = true
every_backup p (b ∷ bs) = p b && every_backup p bs

unfoldable pub remove_all : List Backup → Counts → Counts
remove_all [] counts = counts
remove_all (b ∷ bs) counts =
    remove_all bs (λ key. if b.key_id == key then counts key - 1 else counts key)

-- `selected += uint64(backup.Size)`
unfoldable pub add_sizes : ℕ → List Backup → ℕ
add_sizes selected [] = selected
add_sizes selected (b ∷ bs) = add_sizes ((selected + b.size) % 2 ^ 64) bs

pub record Progress : Type 0 where
  pub candidates : List Backup
  pub selected : ℕ
  pub counts : Counts

unfoldable pub take_day : List Backup → Progress → Progress
take_day items s = record {
  candidates = s.candidates ++ items;
  selected = add_sizes s.selected items;
  counts = remove_all items s.counts;
}

-- The loop over the days, oldest first: a day is taken whole or not at all, until enough is selected.
unfoldable pub take_days : (String → Bool) → ℕ → List Group → Progress → Progress
take_days revoked needed [] s = s
take_days revoked needed ((day, items) ∷ groups) s =
    let skipped = take_days revoked needed groups s in
    let taken = take_day items s in
    let more = take_days revoked needed groups taken in
    if not (every_backup (is_takeable revoked s.counts items) items)
    then skipped
    else if leb needed taken.selected
    then taken
    else more

unfoldable pub start : List Backup → Progress
start backups = record { candidates = []; selected = 0; counts = λ key. complete_count key backups }

is_nonempty : List Backup → Bool
is_nonempty [] = false
is_nonempty (_ ∷ _) = true

unfoldable pub conclude : ℕ → ℕ → Progress → Selection
unfolding is_nonempty
conclude basis needed s = record {
  eligible = is_nonempty s.candidates;
  reason =
      if ltb s.selected needed
      then "candidati leciti insufficienti"
      else "candidati limitati alla quantita necessaria";
  used_basis_points = basis;
  bytes_needed = needed;
  selected_bytes = s.selected;
  shortfall_bytes = if ltb s.selected needed then needed - s.selected else 0;
  candidates = s.candidates;
}

-- a result without candidates
without : Bool → String → ℕ → Selection
without eligible reason basis = record {
  eligible = eligible;
  reason = reason;
  used_basis_points = basis;
  bytes_needed = 0;
  selected_bytes = 0;
  shortfall_bytes = 0;
  candidates = [];
}

choose : Location → SelectionInput → ℕ → ℕ → Result Selection
choose loc input basis needed = do
  groups ← collect loc input input.backups []
  ok (conclude basis needed (take_days input.revoked needed groups (start input.backups)))

-- the part of Select above the threshold
above_threshold : (String → Option Location) → SelectionInput → ℕ → Result Selection
unfolding choose without
above_threshold load input basis = do
  loc ← from_option (load input.timezone) (refused "unknown time zone")
  refuse_if (ltb input.retention_days minimum_days)
      (refused "finestra di conservazione inferiore a 7 giorni")
  sizes ← filesystem_bytes input.filesystem
  refuse_if (ltb (max_uint64 - sizes.used) input.expected_bytes)
      (refused "previsione spazio non rappresentabile")
  let needed = bytes_to_free sizes.total sizes.used input.threshold input.expected_bytes
  (if leb needed input.pending_purge_bytes
      then ok (without true "richieste pendenti gia sufficienti" basis)
      else choose loc input basis (needed - input.pending_purge_bytes))

-- Select
unfoldable pub select_backups : (String → Option Location) → SelectionInput → Result Selection
unfolding above_threshold without
select_backups load input = do
  refuse_if (ltb input.threshold 1 || ltb 10000 input.threshold)
      (refused "soglia filesystem non valida")
  basis ← used_basis_points input.filesystem
  (if ltb basis input.threshold
      then ok (without false "occupazione inferiore alla soglia" basis)
      else above_threshold load input basis)
