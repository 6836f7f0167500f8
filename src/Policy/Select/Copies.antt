-- ===== src/Policy/Select/Copies.antt =====
-- What a selection leaves to each key.
use onlybackup.Prelude.{
  ℕ, ◌+◌, ◌-◌, ◌<◌, String, ◌≡◌, Bool, true, false, Option, List, [], ◌∷◌, ◌++◌, leb, ◌==◌, nat_eq,
  string_eq, str_iff, if◌then◌else◌, ok, arith, All, All-append, count, Bool-cases, inl, inr,
}
use onlybackup.Model.Types.{Backup, complete, status_eq, same_status_iff}
use onlybackup.Catalog.Tables.{Location}
use onlybackup.Catalog.Rows.{count-append}
use onlybackup.Policy.Select.Shape.{candidates_of}
use onlybackup.Policy.Select.{
  SelectionInput, Selection, Group, Counts, Progress, key_count, complete_count, is_takeable,
  every_backup, remove_all, take_day, take_days, start, select_backups,
}

remove_all-counts :
    (items : List Backup) (counts : Counts) (key : String)
    → remove_all items counts key ≡ counts key - key_count key items
unfolding remove_all key_count count
remove_all-counts [] counts key = omega arith
remove_all-counts (b ∷ bs) counts key =
    ground (arith, remove_all-counts bs (λ k. if b.key_id == k then counts k - 1 else counts k) key)

key_count-append :
    (key : String) (xs ys : List Backup)
    → key_count key (xs ++ ys) ≡ key_count key xs + key_count key ys
unfolding key_count
key_count-append key xs ys = count-append _ xs ys

-- a takeable day leaves a copy of each of its keys
taken_lt :
    (revoked : String → Bool) (counts : Counts) (day items : List Backup) (key : String)
    → every_backup (is_takeable revoked counts day) items ≡ true
    → 0 < key_count key items
    → key_count key day < counts key
unfolding every_backup is_takeable key_count count
taken_lt revoked counts day [] key h pos = absurd (omega arith)
taken_lt revoked counts day (b ∷ bs) key h pos = elim (Bool-cases (b.key_id == key)) [
  | inl same ↦ let e : b.key_id ≡ key = (str_iff b.key_id key).0 same in rw (← e) (ground arith)
  | inr other ↦
      let later = rw other at pos in taken_lt revoked counts day bs key (ground arith) (omega arith)
]

abbrev pub IsLawful : (String → Bool) → Backup → Type 0
IsLawful revoked b = (b.status ≡ complete) × (revoked b.key_id ≡ false)

takeable-IsLawful :
    (revoked : String → Bool) (counts : Counts) (day items : List Backup)
    → every_backup (is_takeable revoked counts day) items ≡ true
    → All (IsLawful revoked) items
unfolding every_backup is_takeable
takeable-IsLawful revoked counts day [] h = tt
takeable-IsLawful revoked counts day (b ∷ bs) h = (
  ((same_status_iff b.status complete).0 (ground arith), ground arith),
  takeable-IsLawful revoked counts day bs (ground arith),
)

record Inv (initial : Counts) (revoked : String → Bool) (s : Progress) : Type 0 where
  balance : (key : String) → s.counts key + key_count key s.candidates ≡ initial key
  kept : (key : String) → 0 < key_count key s.candidates → 0 < s.counts key
  lawful : All (IsLawful revoked) s.candidates

take_day-Inv :
    (initial : Counts) (revoked : String → Bool) (items : List Backup) (s : Progress)
    → every_backup (is_takeable revoked s.counts items) items ≡ true
    → Inv initial revoked s
    → Inv initial revoked (take_day items s)
unfolding take_day
take_day-Inv initial revoked items s h inv = record {
  balance = λ key. grind (
    arith,
    remove_all-counts items s.counts key,
    key_count-append key s.candidates items,
    inv.balance key,
    taken_lt revoked s.counts items items key h,
  );
  kept = λ key. grind (
    arith,
    remove_all-counts items s.counts key,
    key_count-append key s.candidates items,
    inv.kept key,
    taken_lt revoked s.counts items items key h,
  );
  lawful =
      All-append (IsLawful revoked) s.candidates items inv.lawful
        (takeable-IsLawful revoked s.counts items items h);
}

take_days-Inv :
    (initial : Counts) (revoked : String → Bool) (needed : ℕ) (groups : List Group) (s : Progress)
    → Inv initial revoked s
    → Inv initial revoked (take_days revoked needed groups s)
unfolding take_days
take_days-Inv initial revoked needed [] s inv = inv
take_days-Inv initial revoked needed ((day, items) ∷ groups) s inv =
    elim (Bool-cases (every_backup (is_takeable revoked s.counts items) items)) [
      | inr no_day ↦ rw no_day (take_days-Inv initial revoked needed groups s inv)
      | inl day_ok ↦
          let next = take_day-Inv initial revoked items s day_ok inv in
          rw day_ok (elim (Bool-cases (leb needed (take_day items s).selected)) [
            | inl enough ↦ rw enough next
            | inr more ↦
                rw more (take_days-Inv initial revoked needed groups (take_day items s) next)
          ])
    ]

start-Inv :
    (revoked : String → Bool) (backups : List Backup)
    → Inv (λ key. complete_count key backups) revoked (start backups)
unfolding start key_count count
start-Inv revoked backups = record {
  balance = λ key. omega arith;
  kept = λ key h. absurd (omega arith);
  lawful = tt;
}

-- From one selection, no key loses its last complete copy, and no copy of a revoked key, and nothing that is
-- not complete, is chosen.
pub record IsSafe (input : SelectionInput) (candidates : List Backup) : Type 0 where
  pub copy_left :
      (key : String)
      → 0 < key_count key candidates
      → key_count key candidates < complete_count key input.backups
  pub lawful : All (IsLawful input.revoked) candidates

Inv-IsSafe :
    (input : SelectionInput) (s : Progress)
    → Inv (λ key. complete_count key input.backups) input.revoked s
    → IsSafe input s.candidates
Inv-IsSafe input s inv = record {
  copy_left = λ key h. grind (arith, inv.balance key, inv.kept key);
  lawful = inv.lawful;
}

-- Whatever Select proposes, each key that it proposes a backup of keeps at least one complete backup that is
-- not proposed, and every proposed backup is complete and belongs to a key that is not revoked.
pub select_backups-IsSafe :
    (load : String → Option Location) (input : SelectionInput) (r : Selection)
    → select_backups load input ≡ ok r
    → IsSafe input r.candidates
select_backups-IsSafe load input r h = elim (candidates_of load input r h) [
  | inl e ↦
      rw e (record {
        copy_left = λ key p. absurd (unfold key_count count in omega arith);
        lawful = tt;
      })
  | inr c ↦ rw c.days (
      Inv-IsSafe input _ (
        take_days-Inv _ input.revoked c.needed c.groups (start input.backups)
          (start-Inv input.revoked input.backups)))
]
