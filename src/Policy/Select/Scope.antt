-- ===== src/Policy/Select/Scope.antt =====
-- How old a proposed backup is, and where it comes from.
use onlybackup.Prelude.{
  ℕ, ◌+◌, ◌≤◌, ◌<◌, String, ◌≡◌, false, Option, some, List, [], ◌∷◌, ltb, leb, ◌==◌, nat_eq, ◌⊎◌,
  ok, arith, All, All-append, Bool-cases, inl, inr, >>=-eq-ok,
}
use onlybackup.Model.Types.{Instant, Backup}
use onlybackup.Catalog.Tables.{Location}
use onlybackup.Policy.Protection.{not_before_cutoff, backup_time, local_midnight, minimum_days}
use onlybackup.Policy.Protection.Civil.{IsRegular, cutoff_iff}
use onlybackup.Policy.Select.{
  SelectionInput, Selection, Group, Progress, minimum_for, add_to_day, is_young, place, collect,
  is_takeable, every_backup, take_day, take_days, start, select_backups,
}
use onlybackup.Policy.Select.Shape.{candidates_of}

abbrev AllGroups : (Backup → Type 0) → List Group → Type 0
AllGroups P = All (λ g. All P g.1)

add_to_day-All :
    (P : Backup → Type 0) (day : ℕ) (b : Backup) (groups : List Group)
    → P b
    → AllGroups P groups
    → AllGroups P (add_to_day day b groups)
unfolding add_to_day
add_to_day-All P day b [] p h = ((p, tt), tt)
add_to_day-All P day b ((other, items) ∷ groups) p h = elim (Bool-cases (day == other)) [
  | inl same ↦ rw same (All-append P items (b ∷ []) h.0 (p, tt), h.1)
  | inr apart ↦ rw apart (elim (Bool-cases (ltb day other)) [
    | inl before ↦ rw before ((p, tt), h)
    | inr after ↦ rw after (h.0, add_to_day-All P day b groups p h.1)
  ])
]

-- What a backup that enters the groups satisfies.
abbrev IsOld : Location → SelectionInput → Backup → Type 0
IsOld loc input b = (is_young loc input b ≡ false) × (minimum_days ≤ minimum_for input b)

place_cases :
    (loc : Location) (input : SelectionInput) (b : Backup) (groups g : List Group)
    → place loc input b groups ≡ ok g
    → (g ≡ groups)
      ⊎ ((g ≡ add_to_day (loc.day (local_midnight loc (backup_time b))) b groups)
          × IsOld loc input b)
unfolding place
place_cases loc input b groups g h = ground arith

module _ (Q : Backup → Type 0) (loc : Location) (input : SelectionInput) where
  abbrev Fits : Backup → Type 0
  Fits b = Q b × IsOld loc input b

  place-All :
      (b : Backup) (groups g : List Group)
      → Q b
      → AllGroups Fits groups
      → place loc input b groups ≡ ok g
      → AllGroups Fits g
  place-All b groups g q all h = elim (place_cases loc input b groups g h) [
    | inl e ↦ rw e all
    | inr (e, old) ↦ rw e (add_to_day-All Fits _ b groups (q, old) all)
  ]

  collect-All :
      (bs : List Backup) (groups g : List Group)
      → All Q bs
      → AllGroups Fits groups
      → collect loc input bs groups ≡ ok g
      → AllGroups Fits g
  unfolding collect
  collect-All [] groups g q all h = let e : g ≡ groups = cc in rw e all
  collect-All (b ∷ bs) groups g q all h =
      let (g', placed, rest) = >>=-eq-ok (place loc input b groups) _ h in
      collect-All bs g' g q.1 (place-All b groups g' q.0 all placed) rest

  take_days-All :
      (needed : ℕ) (groups : List Group) (s : Progress)
      → AllGroups Fits groups
      → All Fits s.candidates
      → All Fits (take_days input.revoked needed groups s).candidates
  unfolding take_days take_day
  take_days-All needed [] s all h = h
  take_days-All needed ((day, items) ∷ groups) s all h =
      let next = All-append Fits s.candidates items h all.0 in
      elim (Bool-cases (every_backup (is_takeable input.revoked s.counts items) items)) [
        | inr no_day ↦ rw no_day (take_days-All needed groups s all.1 h)
        | inl day_ok ↦ rw day_ok (elim (Bool-cases (leb needed (take_day items s).selected)) [
          | inl enough ↦ rw enough next
          | inr more ↦ rw more (take_days-All needed groups (take_day items s) all.1 next)
        ])
      ]

-- the cutoff of an old backup lies after the first day of 1970
cutoff_late :
    (loc : Location) (r : IsRegular loc) (now : Instant) (d days : ℕ)
    → minimum_days ≤ days
    → not_before_cutoff loc now days (loc.date d 0) ≡ false
    → days < loc.day now
unfolding not_before_cutoff local_midnight
cutoff_late loc r now d days least h =
    let reached : days ≤ loc.day now = ground (arith, r.same_day (loc.day now)) in
    let clock = r.midnight (loc.day now) (omega (arith, least, reached)) in
    ground (arith, reached, clock, r.same_day (loc.day now), r.start d)

-- an old backup by civil days
old_days :
    (loc : Location) (r : IsRegular loc) (input : SelectionInput) (b : Backup)
    → minimum_days ≤ minimum_for input b
    → is_young loc input b ≡ false
    → loc.day (backup_time b) + minimum_for input b < loc.day input.now
unfolding is_young local_midnight
old_days loc r input b least h =
    let at = loc.date (loc.day (backup_time b)) 0 in
    let old : not_before_cutoff loc input.now (minimum_for input b) at ≡ false = ground arith in
    let late =
      cutoff_late loc r input.now (loc.day (backup_time b)) (minimum_for input b) least old in
    let cut = (cutoff_iff loc r input.now at (minimum_for input b) late).0 old in
    rw (r.same_day (loc.day (backup_time b))) at cut

All-map :
    {P Q : Backup → Type 0} (bs : List Backup) → ((b : Backup) → P b → Q b) → All P bs → All Q bs
All-map [] f h = tt
All-map (b ∷ bs) f h = (f b h.0, All-map bs f h.1)

-- In a zone where every day begins at midnight, what is proposed is older than the minimum of its key, counted in complete civil days, and any property
-- that all backups of the input have.
pub select_backups-IsOld :
    (Q : Backup → Type 0) (load : String → Option Location) (input : SelectionInput) (r : Selection)
    (loc : Location)
    → load input.timezone ≡ some loc
    → IsRegular loc
    → All Q input.backups
    → select_backups load input ≡ ok r
    → All
        (λ b.
          Q b
          × (minimum_days ≤ minimum_for input b)
          × (loc.day (backup_time b) + minimum_for input b < loc.day input.now))
        r.candidates
select_backups-IsOld Q load input r loc l reg q h = elim (candidates_of load input r h) [
  | inl e ↦ rw e tt
  | inr c ↦
      let same : c.loc ≡ loc = cc (c.loaded, l) in
      let groups = collect-All Q c.loc input input.backups [] c.groups q tt c.collected in
      let days =
        take_days-All Q c.loc input c.needed c.groups (start input.backups) groups
          (unfold start in tt) in
      rw c.days (
        All-map _
          (λ b fits. (fits.0, fits.1.1, old_days loc reg input b fits.1.1 (rw same at (fits.1.0))))
          days)
]
