-- ===== src/Ingest/Restart/Sweep.antt =====
-- What the sweep of the staging files leaves.
use onlybackup.Prelude.{
  ℕ, String, ◌≡◌, refl, inl, inr, true, none, List, [], ◌∷◌, ◌==◌, nat_eq, string_eq, ok, select,
  arith, Bool-cases, Result-cases, str_iff,
}
use onlybackup.Model.Types.{status_eq}
use onlybackup.Model.Hex.{valid_id}
use onlybackup.Ingest.Files.{
  Directory, find_file, find_file-remove_file, find_file-remove_file-none,
}
use onlybackup.Ingest.Restart.{Obstacles, unless, sweep_entry, sweep}

-- A file that is not there does not come back.
sweep_entry-none :
    (o : Obstacles) (id other : String) (incoming left : Directory)
    → sweep_entry o id incoming ≡ ok left
    → find_file other incoming ≡ none
    → find_file other left ≡ none
unfolding sweep_entry unless
sweep_entry-none o id other incoming left h e =
    ground (arith, find_file-remove_file-none id other incoming e)

sweep_entry-gone :
    (o : Obstacles) (name id : String) (incoming left : Directory)
    → sweep_entry o name incoming ≡ ok left
    → name ≡ id
    → valid_id id ≡ true
    → find_file id left ≡ none
unfolding sweep_entry unless
sweep_entry-gone o name id incoming left h same e =
    ground (arith, find_file-remove_file id incoming)

sweep-step :
    (o : Obstacles) (name : String) (bytes : List ℕ) (rest incoming left : Directory)
    → sweep_entry o name incoming ≡ ok left
    → sweep o ((name, bytes) ∷ rest) incoming ≡ sweep o rest left
unfolding sweep
sweep-step o name bytes rest incoming left h = ground arith

sweep-entry_ok :
    (o : Obstacles) (name : String) (bytes : List ℕ) (rest incoming : Directory)
    → (sweep o ((name, bytes) ∷ rest) incoming).0 ≡ none
    → (left : Directory) × (sweep_entry o name incoming ≡ ok left)
unfolding sweep
sweep-entry_ok o name bytes rest incoming h = elim (Result-cases (sweep_entry o name incoming)) [
  | inl (x, problem) ↦ absurd (ground arith)
  | inr done ↦ done
]

sweep-none :
    (o : Obstacles) (id : String) (entries incoming : Directory)
    → (sweep o entries incoming).0 ≡ none
    → find_file id incoming ≡ none
    → find_file id (sweep o entries incoming).1 ≡ none
sweep-none o id [] incoming h e = unfold sweep in e
sweep-none o id ((name, bytes) ∷ rest) incoming h e =
    let (left, done) = sweep-entry_ok o name bytes rest incoming h in
    let step = sweep-step o name bytes rest incoming left done in
    rw step
      (sweep-none o id rest left (rw step at h) (sweep_entry-none o name id incoming left done e))

-- A correctly named file is gone after the sweep, if it was an entry or was gone before.
pub sweep-gone :
    (o : Obstacles) (id : String) (entries incoming : Directory)
    → (sweep o entries incoming).0 ≡ none
    → valid_id id ≡ true
    → (find_file id entries ≡ none → find_file id incoming ≡ none)
    → find_file id (sweep o entries incoming).1 ≡ none
unfolding find_file select
sweep-gone o id [] incoming h v gone = unfold sweep in gone refl
sweep-gone o id ((name, bytes) ∷ rest) incoming h v gone =
    let (left, done) = sweep-entry_ok o name bytes rest incoming h in
    let step = sweep-step o name bytes rest incoming left done in
    rw step (elim (Bool-cases (name == id)) [
      | inl hit ↦
          sweep-none o id rest left (rw step at h)
            (sweep_entry-gone o name id incoming left done ((str_iff name id).0 hit) v)
      | inr miss ↦
          sweep-gone o id rest left (rw step at h) v
            λ e. sweep_entry-none o name id incoming left done (gone (rw miss e))
    ])
