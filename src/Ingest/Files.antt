-- ===== src/Ingest/Files.antt =====
-- The two directories of an archive that the writer uses, by the identifiers in the names of their files:
-- incoming/<id>.part and archives/backups/<id>.backup.
use onlybackup.Prelude.{
  ℕ, String, ◌≡◌, refl, true, false, not, Option, none, some, List, [], ◌∷◌, ◌++◌, ◌==◌, string_eq,
  select, keep, Bool-cases, inl, inr, arith, str_iff,
}

abbrev pub Directory : Type 0
Directory = List (String × List ℕ)

pub record Files : Type 0 where
  pub incoming : Directory
  pub archives : Directory

abbrev contents : Option (String × List ℕ) → Option (List ℕ)
contents none = none
contents (some (name, bytes)) = some bytes

unfoldable pub find_file : String → Directory → Option (List ℕ)
find_file id dir = contents (select (λ f. f.0 == id) dir)

-- os.Remove, also of a name that does not exist
unfoldable pub remove_file : String → Directory → Directory
remove_file id dir = keep (λ f. not (f.0 == id)) dir

-- os.Link to a name that does not exist
unfoldable pub add_file : String → List ℕ → Directory → Directory
add_file id bytes dir = dir ++ (id, bytes) ∷ []

-- A file that is there stays, and a new one is found under its name.
pub find_file-add_file_other :
    (id new : String) (bytes old : List ℕ) (dir : Directory)
    → find_file id dir ≡ some old
    → find_file id (add_file new bytes dir) ≡ some old
unfolding find_file add_file select
find_file-add_file_other id new bytes old [] h = cc
find_file-add_file_other id new bytes old ((name, x) ∷ dir) h = elim (Bool-cases (name == id)) [
  | inl hit ↦ rw hit (rw hit at h)
  | inr miss ↦ rw miss (find_file-add_file_other id new bytes old dir (rw miss at h))
]

pub find_file-add_file :
    (id : String) (bytes : List ℕ) (dir : Directory)
    → find_file id dir ≡ none
    → find_file id (add_file id bytes dir) ≡ some bytes
unfolding find_file add_file select
find_file-add_file id bytes [] h = let e : (id == id) ≡ true = (str_iff id id).1 refl in rw e refl
find_file-add_file id bytes ((name, x) ∷ dir) h = elim (Bool-cases (name == id)) [
  | inl hit ↦ ground arith
  | inr miss ↦ rw miss (find_file-add_file id bytes dir (rw miss at h))
]

pub find_file-remove_file :
    (id : String) (dir : Directory) → find_file id (remove_file id dir) ≡ none
unfolding find_file remove_file select keep
find_file-remove_file id [] = refl
find_file-remove_file id ((name, x) ∷ dir) = elim (Bool-cases (name == id)) [
  | inl hit ↦ rw hit (find_file-remove_file id dir)
  | inr miss ↦ rw miss (rw miss (find_file-remove_file id dir))
]

pub find_file-remove_file-none :
    (name id : String) (dir : Directory)
    → find_file id dir ≡ none
    → find_file id (remove_file name dir) ≡ none
unfolding find_file remove_file select keep
find_file-remove_file-none name id [] h = refl
find_file-remove_file-none name id ((other, x) ∷ dir) h = elim (Bool-cases (other == name)) [
  | inl hit ↦ ground (arith, find_file-remove_file-none name id dir)
  | inr miss ↦ ground (arith, find_file-remove_file-none name id dir)
]

-- Adding and removing a file leave the other names alone.
pub find_file-add_file_apart :
    (id new : String) (bytes : List ℕ) (dir : Directory)
    → (new == id) ≡ false
    → find_file id (add_file new bytes dir) ≡ find_file id dir
unfolding find_file add_file select
find_file-add_file_apart id new bytes [] h = rw h refl
find_file-add_file_apart id new bytes ((name, x) ∷ dir) h = elim (Bool-cases (name == id)) [
  | inl hit ↦ rw hit refl
  | inr miss ↦ rw miss (find_file-add_file_apart id new bytes dir h)
]

pub find_file-remove_file_apart :
    (id old : String) (dir : Directory)
    → (old == id) ≡ false
    → find_file id (remove_file old dir) ≡ find_file id dir
unfolding find_file remove_file select keep
find_file-remove_file_apart id old [] h = refl
find_file-remove_file_apart id old ((name, x) ∷ dir) h = elim (Bool-cases (name == old)) [
  | inl hit ↦
      let same : name ≡ old = (str_iff name old).0 hit in
      let miss : (name == id) ≡ false = rw same h in
      rw hit (rw miss (find_file-remove_file_apart id old dir h))
  | inr keeps ↦ elim (Bool-cases (name == id)) [
    | inl hit ↦ rw keeps (rw hit refl)
    | inr miss ↦ rw keeps (rw miss (find_file-remove_file_apart id old dir h))
  ]
]
