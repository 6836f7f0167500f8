-- ===== src/Store/Checks/Learned.antt =====
-- The order of the models of a key.
use onlybackup.Prelude.{
  ℕ, ◌≤◌, String, ◌≡◌, inl, inr, Option, none, some, List, [], ◌∷◌, leb, ◌==◌, nat_eq, ok, no_rows,
  >>=-eq-ok, from_option, count, arith, Bool-cases,
}
use onlybackup.Catalog.Tables.{Db, Environment, ModelRow, CheckModel}
use onlybackup.Store.Checks.{is_completed}
use onlybackup.Store.Checks.Plan.{
  insert, sort_by, first, learned_before, models_of, latest_coverage, first_scope, drop_until,
  drop_older, bootstrap, from_first, resumed_at, origin_without, origin_from, Origin, origin,
}

-- Models in the order in which they were learned, none before a time.
abbrev pub LearnedFrom : ℕ → List ModelRow → Type 0
LearnedFrom t [] = Unit
LearnedFrom t (m ∷ ms) = (t ≤ m.learned_at) × LearnedFrom m.learned_at ms

LearnedFrom-mono : (t u : ℕ) (ms : List ModelRow) → t ≤ u → LearnedFrom u ms → LearnedFrom t ms
LearnedFrom-mono t u [] l h = tt
LearnedFrom-mono t u (m ∷ ms) l h = (omega (arith, l, h.0), h.1)

insert-LearnedFrom :
    (t : ℕ) (m : ModelRow) (ms : List ModelRow)
    → t ≤ m.learned_at
    → LearnedFrom t ms
    → LearnedFrom t (insert learned_before m ms)
unfolding insert learned_before
insert-LearnedFrom t m [] l h = (l, tt)
insert-LearnedFrom t m (n ∷ ms) l h = elim (Bool-cases (learned_before n m)) [
  | inl hit ↦
      let early : n.learned_at ≤ m.learned_at = ground arith in
      rw hit ((h.0, insert-LearnedFrom n.learned_at m ms early h.1))
  | inr miss ↦ rw miss ((l, (ground arith, h.1)))
]

sort_by-LearnedFrom : (ms : List ModelRow) → LearnedFrom 0 (sort_by learned_before ms)
unfolding sort_by
sort_by-LearnedFrom [] = tt
sort_by-LearnedFrom (m ∷ ms) = insert-LearnedFrom 0 m _ (omega arith) (sort_by-LearnedFrom ms)

drop_until-LearnedFrom :
    (t revision : ℕ) (ms : List ModelRow)
    → LearnedFrom t ms
    → LearnedFrom t (drop_until revision ms)
unfolding drop_until
drop_until-LearnedFrom t revision [] h = h
drop_until-LearnedFrom t revision (m ∷ ms) h = elim (Bool-cases (m.revision == revision)) [
  | inl hit ↦ rw hit h
  | inr miss ↦
      rw miss (drop_until-LearnedFrom t revision ms (LearnedFrom-mono t m.learned_at ms h.0 h.1))
]

drop_older-LearnedFrom :
    (t at : ℕ) (ms : List ModelRow) → LearnedFrom t ms → LearnedFrom t (drop_older at ms)
unfolding drop_older
drop_older-LearnedFrom t at [] h = h
drop_older-LearnedFrom t at (m ∷ []) h = h
drop_older-LearnedFrom t at (m ∷ n ∷ ms) h = elim (Bool-cases (leb n.learned_at at)) [
  | inl hit ↦
      rw hit
        (drop_older-LearnedFrom t at (n ∷ ms) (LearnedFrom-mono t m.learned_at (n ∷ ms) h.0 h.1))
  | inr miss ↦ rw miss h
]

module _ (start : ℕ) (ms : List ModelRow) (o : Origin) where
  resumed_at-models : resumed_at start ms ≡ ok o → o.models ≡ ms
  unfolding resumed_at
  resumed_at-models h = ground arith

  from_first-models : from_first ms ≡ ok o → o.models ≡ ms
  unfolding from_first
  from_first-models h = ground arith

  bootstrap-models : (env : Environment) → bootstrap env start ms ≡ ok o → o.models ≡ ms
  unfolding bootstrap
  bootstrap-models env h = ground arith

origin_without-LearnedFrom :
    (env : Environment) (db : Db) (scope : Option CheckModel) (ms : List ModelRow) (o : Origin)
    → LearnedFrom 0 ms
    → origin_without env db scope ms ≡ ok o
    → LearnedFrom 0 o.models
unfolding origin_without
origin_without-LearnedFrom env db (some cm) ms o l h =
    rw (resumed_at-models cm.covered_from _ o h) (drop_until-LearnedFrom 0 cm.revision ms l)
origin_without-LearnedFrom env db none ms o l h =
    let (c, found, r) = >>=-eq-ok (from_option (first db.checks) no_rows) _ h in
    elim (Bool-cases (count is_completed db.checks == 0)) [
      | inl hit ↦
          rw (bootstrap-models c.started_at _ o env (rw hit at r))
            (drop_older-LearnedFrom 0 c.started_at ms l)
      | inr miss ↦ rw (from_first-models 0 ms o (rw miss at r)) l
    ]

models_of-LearnedFrom : (key_id : String) (db : Db) → LearnedFrom 0 (models_of key_id db)
unfolding models_of
models_of-LearnedFrom key_id db = sort_by-LearnedFrom _

origin_from-LearnedFrom :
    (env : Environment) (id : ℕ) (key_id : String) (db : Db) (seen : Option ℕ) (o : Origin)
    → origin_from env id key_id db seen ≡ ok o
    → LearnedFrom 0 o.models
unfolding origin_from
origin_from-LearnedFrom env id key_id db (some t) o h =
    let e : o.models ≡ models_of key_id db = ground arith in rw e (models_of-LearnedFrom key_id db)
origin_from-LearnedFrom env id key_id db none o h =
    origin_without-LearnedFrom env db (first_scope id key_id db) (models_of key_id db) o
      (models_of-LearnedFrom key_id db) h

pub origin-LearnedFrom :
    (env : Environment) (id : ℕ) (key_id : String) (db : Db) (o : Origin)
    → origin env id key_id db ≡ ok o
    → LearnedFrom 0 o.models
unfolding origin
origin-LearnedFrom env id key_id db o h =
    origin_from-LearnedFrom env id key_id db (latest_coverage key_id db) o h
