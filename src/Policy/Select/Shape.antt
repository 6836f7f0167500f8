-- ===== src/Policy/Select/Shape.antt =====
-- A successful Select either proposes nothing, or proposes what the loop over the days took.
use onlybackup.Prelude.{
  ℕ, ◌-◌, String, ◌≡◌, ◌⊎◌, inl, inr, Bool, true, false, ◌||◌, Option, some, List, [], ltb,
  if◌then◌else◌, ok, refused, from_option, refuse_if, arith, >>=-eq-ok,
}
use onlybackup.Catalog.Tables.{Location}
use onlybackup.Policy.Capacity.{used_basis_points, filesystem_bytes, max_uint64}
use onlybackup.Policy.Protection.{minimum_days}
use onlybackup.Policy.Select.{
  SelectionInput, Selection, Group, collect, take_days, start, conclude, choose, above_threshold,
  without, select_backups,
}

pub record Chosen (load : String → Option Location) (input : SelectionInput) (r : Selection)
    : Type 0 where
  pub loc : Location
  pub loaded : load input.timezone ≡ some loc
  pub needed : ℕ
  pub groups : List Group
  pub collected : collect loc input input.backups [] ≡ ok groups
  pub days : r.candidates ≡ (take_days input.revoked needed groups (start input.backups)).candidates
  pub bytes :
      r.selected_bytes ≡ (take_days input.revoked needed groups (start input.backups)).selected

choose-Chosen :
    (load : String → Option Location) (loc : Location) (input : SelectionInput) (basis needed : ℕ)
    (r : Selection)
    → load input.timezone ≡ some loc
    → choose loc input basis needed ≡ ok r
    → Chosen load input r
unfolding choose
choose-Chosen load loc input basis needed r l h =
    let (groups, collected, e) =
      >>=-eq-ok (collect loc input input.backups [])
        (λ g. ok (conclude basis needed (take_days input.revoked needed g (start input.backups))))
        h in
    record {
      loc = loc;
      loaded = l;
      needed = needed;
      groups = groups;
      collected = collected;
      days = unfold conclude in ground arith;
      bytes = unfold conclude in ground arith;
    }

enough-or-Chosen :
    (enough : Bool) (load : String → Option Location) (loc : Location) (input : SelectionInput)
    (basis needed : ℕ) (r : Selection)
    → load input.timezone ≡ some loc
    → (if enough
        then ok (without true "richieste pendenti gia sufficienti" basis)
        else choose loc input basis needed)
      ≡ ok r
    → (r.candidates ≡ []) ⊎ Chosen load input r
unfolding without
enough-or-Chosen true load loc input basis needed r l h = inl (ground arith)
enough-or-Chosen false load loc input basis needed r l h =
    inr (choose-Chosen load loc input basis needed r l h)

load_cases :
    (load : String → Option Location) (timezone : String) (loc : Location)
    → from_option (load timezone) (refused "unknown time zone") ≡ ok loc
    → load timezone ≡ some loc
load_cases load timezone loc h = ground arith

above-or-Chosen :
    (low : Bool) (load : String → Option Location) (input : SelectionInput) (basis : ℕ)
    (r : Selection)
    → (if low
        then ok (without false "occupazione inferiore alla soglia" basis)
        else above_threshold load input basis)
      ≡ ok r
    → (r.candidates ≡ []) ⊎ Chosen load input r
unfolding without above_threshold
above-or-Chosen true load input basis r h = inl (ground arith)
above-or-Chosen false load input basis r h =
    let (loc, l, h1) =
      >>=-eq-ok (from_option (load input.timezone) (refused "unknown time zone")) _ h in
    let (u, days, h2) =
      >>=-eq-ok
        (refuse_if (ltb input.retention_days minimum_days)
          (refused "finestra di conservazione inferiore a 7 giorni"))
        _ h1 in
    let (sizes, measured, h3) = >>=-eq-ok (filesystem_bytes input.filesystem) _ h2 in
    let (v, fits, h4) =
      >>=-eq-ok
        (refuse_if (ltb (max_uint64 - sizes.used) input.expected_bytes)
          (refused "previsione spazio non rappresentabile"))
        _ h3 in
    enough-or-Chosen _ load loc input basis _ r (load_cases load input.timezone loc l) h4

pub candidates_of :
    (load : String → Option Location) (input : SelectionInput) (r : Selection)
    → select_backups load input ≡ ok r
    → (r.candidates ≡ []) ⊎ Chosen load input r
unfolding select_backups
candidates_of load input r h =
    let (u, valid, h1) =
      >>=-eq-ok
        (refuse_if (ltb input.threshold 1 || ltb 10000 input.threshold)
          (refused "soglia filesystem non valida"))
        _ h in
    let (basis, measured, h2) = >>=-eq-ok (used_basis_points input.filesystem) _ h1 in
    above-or-Chosen _ load input basis r h2
