-- ===== src/Store/Checks/Plan.antt =====
-- PlanMonitoringCheck: which part of the time a check covers, with which model of each key. Times are seconds
-- since 1970; the text of a model is left aside.
use onlybackup.Prelude.{
  ℕ, ◌+◌, ◌-◌, ◌*◌, String, Bool, true, false, ◌&&◌, ◌||◌, not, Option, none, some, List, [], ◌∷◌,
  ◌++◌, min, ltb, leb, ◌==◌, nat_eq, string_eq, if◌then◌else◌, Result, ok, err, no_rows, refused,
  constraint, from_option, refuse_if, ◌>>=◌, ◌>>◌, select, count, update, keep, any, map,
}
use onlybackup.Model.Types.{Instant, unix, second}
use onlybackup.Model.Text.{codes}
use onlybackup.Catalog.Tables.{Db, Environment, Location, ModelRow, Check, CheckModel}
use onlybackup.Policy.Protection.{local_midnight}
use onlybackup.Store.Checks.{is_running, is_completed, is_coverage, greatest}

-- policy.ScheduleTolerance in seconds
abbrev pub tolerance : ℕ
tolerance = 30 * 60

module _ {ℓ} {A : Type ℓ} where
  -- ORDER BY, as an insertion sort
  unfoldable pub insert : (A → A → Bool) → A → List A → List A
  insert before x [] = x ∷ []
  insert before x (y ∷ ys) =
      let rest = insert before x ys in if before y x then y ∷ rest else x ∷ y ∷ ys

  unfoldable pub sort_by : (A → A → Bool) → List A → List A
  sort_by before [] = []
  sort_by before (x ∷ xs) = insert before x (sort_by before xs)

  unfoldable pub first : List A → Option A
  first [] = none
  first (x ∷ xs) = some x

-- the byte order of texts
unfoldable pub before_codes : List ℕ → List ℕ → Bool
before_codes [] [] = false
before_codes [] (b ∷ bs) = true
before_codes (a ∷ as') [] = false
before_codes (a ∷ as') (b ∷ bs) = let rest = before_codes as' bs in ltb a b || (a == b && rest)

-- m.learned_at,m.revision
unfoldable pub learned_before : ModelRow → ModelRow → Bool
learned_before a b =
    ltb a.learned_at b.learned_at || (a.learned_at == b.learned_at && ltb a.revision b.revision)

-- the revision of automation_state, or the greatest of a model before the first learning is done
unfoldable pub current_revision : Db → ℕ
unfolding greatest
current_revision db =
    if db.automation.model_revision == 0
    then elim (greatest (map (λ m. m.revision) db.models)) [ none ↦ 0 | some n ↦ n ]
    else db.automation.model_revision

-- the rows of the query over monitoring_models
unfoldable pub is_usable : ℕ → Db → ModelRow → Bool
is_usable revision db m =
    any (λ k. k.id == m.key_id && not k.revoked) db.keys
    && m.reliable
    && not m.review_required
    && leb m.revision revision

-- modelsByKey[keyID]
unfoldable pub models_of : String → Db → List ModelRow
models_of key_id db =
    sort_by learned_before
      (keep (λ m. m.key_id == key_id && is_usable (current_revision db) db m) db.models)

-- each key once
unfoldable pub distinct : List String → List String
distinct [] = []
distinct (k ∷ ks) = let rest = distinct ks in if any (λ x. x == k) rest then rest else k ∷ rest

-- the sorted keys of modelsByKey
unfoldable pub planned_keys : Db → List String
planned_keys db =
    sort_by (λ a b. before_codes (codes a) (codes b))
      (distinct (map (λ m. m.key_id) (keep (is_usable (current_revision db) db) db.models)))

-- latest[keyID]
unfoldable pub latest_coverage : String → Db → Option ℕ
latest_coverage key_id db = greatest (
    map (λ cm. cm.covered_to)
      (keep (λ cm. cm.key_id == key_id && is_coverage db cm) db.check_models))

scope_before : CheckModel → CheckModel → Bool
scope_before a b =
    ltb a.check_id b.check_id
    || (a.check_id == b.check_id
        && (ltb a.covered_from b.covered_from
            || (a.covered_from == b.covered_from && ltb a.revision b.revision)))

-- the first scope of an earlier check that did not complete
unfoldable pub first_scope : ℕ → String → Db → Option CheckModel
unfolding scope_before
first_scope id key_id db = first (
    sort_by scope_before (
      keep
        (λ cm.
          cm.key_id == key_id && ltb cm.check_id id && any (λ c. c.id == cm.check_id) db.checks)
        db.check_models))

-- the models from the one with a revision
unfoldable pub drop_until : ℕ → List ModelRow → List ModelRow
drop_until revision [] = []
drop_until revision (m ∷ ms) =
    let rest = drop_until revision ms in if m.revision == revision then m ∷ ms else rest

-- the models from the one that applied at a time
unfoldable pub drop_older : ℕ → List ModelRow → List ModelRow
drop_older at [] = []
drop_older at (m ∷ []) = m ∷ []
drop_older at (m ∷ n ∷ ms) =
    let rest = drop_older at (n ∷ ms) in if leb n.learned_at at then rest else m ∷ n ∷ ms

-- where the coverage of a key begins, whether it continues a coverage, and the models from there
pub record Origin : Type 0 where
  pub start : ℕ
  pub continues : Bool
  pub models : List ModelRow

-- one second before the day before the local midnight of a time; AddDate keeps the time of day
unfoldable pub day_before : Location → ℕ → ℕ
day_before loc at =
    let midnight = local_midnight loc (at * second) in
    unix (loc.date (loc.day midnight - 1) (loc.clock midnight)) - 1

unfoldable pub bootstrap : Environment → ℕ → List ModelRow → Result Origin
bootstrap env at [] = err (refused "nessun modello")
bootstrap env at (m ∷ ms) = do
  loc ← from_option (env.load_location m.timezone) (refused "fuso non valido")
  ok (record {
    start = if ltb at m.learned_at then m.learned_at else day_before loc at;
    continues = false;
    models = m ∷ ms;
  })

-- the first model that was learned
unfoldable pub from_first : List ModelRow → Result Origin
from_first [] = err (refused "nessun modello")
from_first (m ∷ ms) = ok (record { start = m.learned_at; continues = false; models = m ∷ ms })

unfoldable pub resumed_at : ℕ → List ModelRow → Result Origin
resumed_at start [] = err (refused "modello del primo controllo interrotto non disponibile")
resumed_at start (m ∷ ms) = ok (record { start = start; continues = false; models = m ∷ ms })

unfoldable pub origin_without : Environment → Db → Option CheckModel → List ModelRow → Result Origin
origin_without env db (some cm) models = resumed_at cm.covered_from (drop_until cm.revision models)
origin_without env db none models = do
  c ← from_option (first db.checks) no_rows
  if count is_completed db.checks == 0
      then bootstrap env c.started_at (drop_older c.started_at models)
      else from_first models

unfoldable pub origin_from : Environment → ℕ → String → Db → Option ℕ → Result Origin
origin_from env id key_id db (some t) =
    ok (record { start = t; continues = true; models = models_of key_id db })
origin_from env id key_id db none =
    origin_without env db (first_scope id key_id db) (models_of key_id db)

unfoldable pub origin : Environment → ℕ → String → Db → Result Origin
origin env id key_id db = origin_from env id key_id db (latest_coverage key_id db)

-- where a segment ends: at the end of the coverage, or where the next model was learned
unfoldable pub segment_end : ℕ → List ModelRow → ℕ
segment_end last [] = last
segment_end last (m ∷ ms) = if ltb m.learned_at last then m.learned_at else last

-- where a segment begins; a first model without coverage applies from the start
unfoldable pub segment_start : ℕ → Bool → ModelRow → ℕ
segment_start start later m = if later && ltb start m.learned_at then m.learned_at else start

-- the loop over the segments of one key
unfoldable pub segments : ℕ → ℕ → ℕ → ℕ → Bool → List ModelRow → List CheckModel
unfolding segment_end segment_start
segments id revision start last later [] = []
segments id revision start last later (m ∷ ms) =
    let begins = segment_start start later m in
    let ends = segment_end last ms in
    let rest = segments id revision start last true ms in
    if ltb ends begins || ltb revision m.revision
    then rest
    else record {
      check_id = id;
      key_id = m.key_id;
      revision = m.revision;
      covered_from = begins;
      covered_to = ends;
    }
      ∷ rest

-- `coverageEnd` is `bound - tolerance`; it is compared without the subtraction, which could be negative.
unfoldable pub key_scopes : ℕ → ℕ → ℕ → Origin → List CheckModel
key_scopes id revision bound o =
    if ltb bound (o.start + tolerance)
    then []
    else segments id revision o.start (bound - tolerance) o.continues o.models

unfoldable pub all_scopes : Environment → ℕ → ℕ → Db → List String → Result (List CheckModel)
all_scopes env id bound db [] = ok []
all_scopes env id bound db (k ∷ ks) = do
  o ← origin env id k db
  rest ← all_scopes env id bound db ks
  ok (key_scopes id (current_revision db) bound o ++ rest)

least_from : ℕ → List CheckModel → ℕ
least_from t [] = t
least_from t (cm ∷ cms) = least_from (if ltb cm.covered_from t then cm.covered_from else t) cms

greatest_to : ℕ → List CheckModel → ℕ
greatest_to t [] = t
greatest_to t (cm ∷ cms) = greatest_to (if ltb t cm.covered_to then cm.covered_to else t) cms

-- the period of the check; without a scope it is the time of the planning
unfoldable pub period : ℕ → List CheckModel → ℕ × ℕ
unfolding least_from greatest_to
period now [] = (now, now)
period now (cm ∷ cms) = (least_from cm.covered_from cms, greatest_to cm.covered_to cms)

abbrev pub same_scope : CheckModel → CheckModel → Bool
same_scope a b = a.check_id == b.check_id && a.key_id == b.key_id && a.revision == b.revision

-- INSERT INTO monitoring_check_models, with its primary key
unfoldable pub insert_scopes : List CheckModel → Db → Result Db
insert_scopes [] db = ok db
insert_scopes (cm ∷ cms) db = do
  refuse_if (any (same_scope cm) db.check_models) (constraint "monitoring_check_models")
  insert_scopes cms (record db { check_models = db.check_models ++ cm ∷ [] })

-- PlanMonitoringCheck
unfoldable pub plan_check : Environment → ℕ → Instant → Db → Result (Check × List CheckModel × Db)
unfolding insert_scopes
plan_check env id now db = do
  c ← from_option (select (λ c. c.id == id && is_running c) db.checks) no_rows
  scopes ← all_scopes env id (min c.started_at (unix now)) db (planned_keys db)
  db' ← insert_scopes scopes db
  let (begins, ends) = period (unix now) scopes
  ok (
    record c { period_from = begins; period_to = ends },
    scopes,
    record db' {
      checks =
          update (λ r. r.id == id && is_running r)
            (λ r. record r { period_from = begins; period_to = ends }) db'.checks;
    },
  )
