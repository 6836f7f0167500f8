-- ===== src/Store/Checks/Start.antt =====
-- The checks that are running when one is started.
use onlybackup.Prelude.{
  String, ◌≡◌, refl, Bool, true, ◌&&◌, List, [], ◌∷◌, ◌==◌, nat_eq, count, update, arith,
  nat_beq_iff,
}
use onlybackup.Model.Types.{Instant}
use onlybackup.Catalog.Tables.{Db, Check, failed}
use onlybackup.Catalog.Rows.{count-append}
use onlybackup.Store.Checks.{is_running, finished, new_check, start_check}

none_left :
    (text : String) (now : Instant) (cs : List Check)
    → count is_running (update is_running (finished failed text now) cs) ≡ 0
unfolding count update
none_left text now [] = refl
none_left text now (c ∷ cs) = ground (arith, none_left text now cs)

none_left_of :
    (p : Check → Bool) (text : String) (now : Instant) (cs : List Check)
    → count (λ c. p c && is_running c) (update is_running (finished failed text now) cs) ≡ 0
unfolding count update
none_left_of p text now [] = refl
none_left_of p text now (c ∷ cs) = ground (arith, none_left_of p text now cs)

-- After the start of a check exactly one check is running, the new one, whatever was running before.
pub start_check-IsAlone :
    (now : Instant) (db : Db)
    → (count is_running (start_check now db).1.checks ≡ 1)
      × (is_running (start_check now db).0 ≡ true)
      × (count (λ c. c.id == db.next_check && is_running c) (start_check now db).1.checks ≡ 1)
unfolding start_check new_check
start_check-IsAlone now db =
    let c = new_check db.next_check now in
    let rest = none_left "interrotto dal precedente arresto" now db.checks in
    let mine =
      none_left_of (λ c. c.id == db.next_check) "interrotto dal precedente arresto" now db.checks in
    let same : (db.next_check == db.next_check) ≡ true =
      (nat_beq_iff db.next_check db.next_check).1 refl in
    let all =
      count-append is_running
        (update is_running (finished failed "interrotto dal precedente arresto" now) db.checks)
        (c ∷ []) in
    let own =
      count-append (λ c. c.id == db.next_check && is_running c)
        (update is_running (finished failed "interrotto dal precedente arresto" now) db.checks)
        (c ∷ []) in
    (
      unfold count in omega (arith, all, rest),
      refl,
      unfold count in ground (arith, own, mine, same),
    )
