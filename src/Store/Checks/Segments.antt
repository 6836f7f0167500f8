-- ===== src/Store/Checks/Segments.antt =====
-- The scopes that PlanMonitoringCheck plans for a key, and those of a whole check.
use onlybackup.Prelude.{
  ℕ, ◌+◌, ◌-◌, ◌≤◌, String, ◌≡◌, refl, inl, inr, Bool, true, false, ◌&&◌, some, List, [], ◌∷◌, ◌++◌,
  All, All-append, min, ltb, leb, ◌==◌, nat_eq, ok, no_rows, >>=-eq-ok, from_option, select, any,
  arith, Bool-cases,
}
use onlybackup.Model.Types.{Instant, unix}
use onlybackup.Catalog.Tables.{Db, Environment, ModelRow, Check, CheckModel}
use onlybackup.Store.Checks.{is_running}
use onlybackup.Store.Checks.Plan.{
  tolerance, current_revision, planned_keys, latest_coverage, origin_from, Origin, origin,
  segment_start, key_scopes, all_scopes, insert_scopes, plan_check,
}
use onlybackup.Store.Checks.Chains.{
  Chained, Applies, segments-Chained, segments-bounded, segments-cover, first_starts,
}
use onlybackup.Store.Checks.Learned.{origin-LearnedFrom}

module _ (id revision bound : ℕ) (o : Origin) where
  segments-within :
      (last t : ℕ) (cms : List CheckModel)
      → last + tolerance ≤ t
      → All (λ cm. (cm.check_id ≡ id) × (o.start ≤ cm.covered_from) × (cm.covered_to ≤ last)) cms
      → All
          (λ cm. (cm.check_id ≡ id) × (o.start ≤ cm.covered_from) × (cm.covered_to + tolerance ≤ t))
          cms
  segments-within last t [] l h = tt
  segments-within last t (cm ∷ cms) l h =
      ((h.0.0, h.0.1, omega (arith, l, h.0.2)), segments-within last t cms l h.1)

  head-Applies :
      (start x : ℕ) (later : Bool) (m : ModelRow)
      → start ≤ x
      → (later ≡ true → m.learned_at ≤ x)
      → segment_start start later m ≤ x
  unfolding segment_start
  head-Applies start x true m b a = let c = a refl in ground arith
  head-Applies start x false m b a = b

  key_scopes-bounded :
      All
        (λ cm.
          (cm.check_id ≡ id) × (o.start ≤ cm.covered_from) × (cm.covered_to + tolerance ≤ bound))
        (key_scopes id revision bound o)
  unfolding key_scopes
  key_scopes-bounded = elim (Bool-cases (ltb bound (o.start + tolerance))) [
    | inl late ↦ rw late tt
    | inr room ↦ rw room (
        segments-within (bound - tolerance) bound _ (ground arith)
          (segments-bounded id revision o.start (bound - tolerance) o.continues o.models))
  ]

  key_scopes-Chained :
      (env : Environment) (key_id : String) (db : Db)
      → origin env id key_id db ≡ ok o
      → Chained o.start (key_scopes id revision bound o)
  unfolding key_scopes
  key_scopes-Chained env key_id db h = elim (Bool-cases (ltb bound (o.start + tolerance))) [
    | inl late ↦ rw late tt
    | inr room ↦ rw room (
        segments-Chained id revision o.start (bound - tolerance) o.start 0 o.continues o.models
          (origin-LearnedFrom env id key_id db o h)
          (first_starts id revision o.start (bound - tolerance) o.continues o.models))
  ]

  key_scopes-cover :
      (x : ℕ) (m : ModelRow) (ms : List ModelRow)
      → o.models ≡ m ∷ ms
      → All (λ n. n.revision ≤ revision) o.models
      → o.start ≤ x
      → x + tolerance ≤ bound
      → (o.continues ≡ true → m.learned_at ≤ x)
      → any (λ cm. leb cm.covered_from x && leb x cm.covered_to) (key_scopes id revision bound o)
        ≡ true
  unfolding key_scopes
  key_scopes-cover x m ms e rs b l a = elim (Bool-cases (ltb bound (o.start + tolerance))) [
    | inl late ↦ absurd (ground arith)
    | inr room ↦ rw room (
        rw e (
          segments-cover id revision o.start (bound - tolerance) x o.continues (m ∷ ms) b
            (omega (arith, l)) (unfold Applies in head-Applies o.start x o.continues m b a)
            (rw e at rs)))
  ]

-- The scopes that a check plans for one key, whatever its history: they follow one another from the start of the
-- coverage, no scope ends later than the tolerance before the bound, and, with models of a revision that applies,
-- every time between the two lies in one, where a coverage that continues begins with its first model.
pub origin-IsContiguous :
    (env : Environment) (id revision bound : ℕ) (key_id : String) (db : Db) (o : Origin)
    → origin env id key_id db ≡ ok o
    → Chained o.start (key_scopes id revision bound o)
      × All
          (λ cm.
            (cm.check_id ≡ id) × (o.start ≤ cm.covered_from) × (cm.covered_to + tolerance ≤ bound))
          (key_scopes id revision bound o)
      × ((x : ℕ) (m : ModelRow) (ms : List ModelRow)
          → o.models ≡ m ∷ ms
          → All (λ n. n.revision ≤ revision) o.models
          → o.start ≤ x
          → x + tolerance ≤ bound
          → (o.continues ≡ true → m.learned_at ≤ x)
          → any
              (λ cm. leb cm.covered_from x && leb x cm.covered_to)
              (key_scopes id revision bound o)
            ≡ true)
origin-IsContiguous env id revision bound key_id db o h = (
  key_scopes-Chained id revision bound o env key_id db h,
  key_scopes-bounded id revision bound o,
  key_scopes-cover id revision bound o,
)

-- Coverage that continues begins where the latest completed coverage of the key ended.
origin-latest :
    (env : Environment) (id : ℕ) (key_id : String) (db : Db) (o : Origin) (t : ℕ)
    → origin env id key_id db ≡ ok o
    → latest_coverage key_id db ≡ some t
    → o.start ≡ t
unfolding origin
origin-latest env id key_id db o t h e =
    let r : origin_from env id key_id db (some t) ≡ ok o = rw e at h in
    unfold origin_from in ground arith

abbrev Timely : ℕ → ℕ → List CheckModel → Type 0
Timely id bound = All (λ cm. (cm.check_id ≡ id) × (cm.covered_to + tolerance ≤ bound))

timely :
    (id start bound : ℕ) (cms : List CheckModel)
    → All
        (λ cm. (cm.check_id ≡ id) × (start ≤ cm.covered_from) × (cm.covered_to + tolerance ≤ bound))
        cms
    → Timely id bound cms
timely id start bound [] h = tt
timely id start bound (cm ∷ cms) h = ((h.0.0, h.0.2), timely id start bound cms h.1)

all_scopes-Timely :
    (env : Environment) (id bound : ℕ) (db : Db) (ks : List String) (cms : List CheckModel)
    → all_scopes env id bound db ks ≡ ok cms
    → Timely id bound cms
unfolding all_scopes
all_scopes-Timely env id bound db [] cms h = let e : cms ≡ [] = ground arith in rw e tt
all_scopes-Timely env id bound db (k ∷ ks) cms h =
    let (o, found, r1) = >>=-eq-ok (origin env id k db) _ h in
    let (rest, others, r2) = >>=-eq-ok (all_scopes env id bound db ks) _ r1 in
    let e : cms ≡ key_scopes id (current_revision db) bound o ++ rest = ground arith in
    rw e (
      All-append _ (key_scopes id (current_revision db) bound o) rest
        (timely id o.start bound _ (key_scopes-bounded id (current_revision db) bound o))
        (all_scopes-Timely env id bound db ks rest others))

-- A planned check covers only appointments whose tolerance had elapsed when it started, also if the clock was set
-- back since: no scope reaches beyond that time, and all belong to the check.
pub plan_check-IsTimely :
    (env : Environment) (id : ℕ) (now : Instant) (db db' : Db) (c : Check) (cms : List CheckModel)
    → plan_check env id now db ≡ ok (c, cms, db')
    → All (λ cm. (cm.check_id ≡ id) × (cm.covered_to + tolerance ≤ min c.started_at (unix now))) cms
unfolding plan_check
plan_check-IsTimely env id now db db' c cms h =
    let (r, found, r1) =
      >>=-eq-ok (from_option (select (λ c. c.id == id && is_running c) db.checks) no_rows) _ h in
    let (scopes, planned, r2) =
      >>=-eq-ok (all_scopes env id (min r.started_at (unix now)) db (planned_keys db)) _ r1 in
    let (db1, inserted, r3) = >>=-eq-ok (insert_scopes scopes db) _ r2 in
    let same : cms ≡ scopes = ground arith in
    let began : c.started_at ≡ r.started_at = ground arith in
    rw same (rw began (all_scopes-Timely env id _ db (planned_keys db) scopes planned))
