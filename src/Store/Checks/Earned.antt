-- ===== src/Store/Checks/Earned.antt =====
-- When the end of a check lets the removal of deposits go on.
use onlybackup.Prelude.{
  ℕ, ◌-◌, String, ◌≡◌, refl, ap, ◌⊎◌, inl, inr, Bool, true, false, ◌&&◌, ◌||◌, not, List, [], ◌∷◌,
  ◌==◌, nat_eq, ltb, ok, refused, ensure, ensure-ok, refuse_if, >>=-eq-ok, count, update, keep, any,
  arith, Bool-cases,
}
use onlybackup.Model.Types.{Instant, unix, Monitoring, regular, authorized, state_eq}
use onlybackup.Model.Text.{codes}
use onlybackup.Catalog.Tables.{Db, Environment, CheckStatus, is_blocked}
use onlybackup.Store.Anomaly.{blocking_anomaly_count}
use onlybackup.Store.Complete.{Finding, open_findings}
use onlybackup.Lifecycle.Completion.{open_findings-KeepsWork}
use onlybackup.Store.Checks.{is_running, finished, cleanup_checks}
use onlybackup.Store.Checks.Finish.{
  byte_count, is_clean, is_outcome, written_state, checked, is_empty, record_check, is_ready,
  activate, retention_seconds, complete_check,
}
use onlybackup.Store.Checks.Holds.{OnlyHolds, open_findings-OnlyHolds}

-- Either the removal of deposits was free before, or the check was the one that frees it: its state is regular,
-- no incident blocks, no operation is authorized, and an activation or a resumption was pending.
pub record Freed (computed : Monitoring) (revision : ℕ) (now : Instant) (before found : Db)
    : Type 0 where
  pub state : computed ≡ regular
  pub quiet : blocking_anomaly_count now found ≡ 0
  pub enabled : before.automation.enabled ≡ true
  pub mail : before.automation.mail_tested ≡ true
  pub learned : (revision == 0) ≡ false
  pub pending :
      (before.automation.resume_pending
        || (before.automation.activation_pending && not before.automation.manual_paused))
      ≡ true
  pub none_authorized : any (λ o. o.state == authorized) before.operations ≡ false

ready-Freed :
    (computed : Monitoring) (revision : ℕ) (now : Instant) (before found db2 : Db)
    → OnlyHolds before.automation found.automation
    → found.operations ≡ before.operations
    → db2.automation
      ≡ checked
          (written_state (blocking_anomaly_count now found) computed)
          revision
          now
          found.automation
    → db2.operations ≡ found.operations
    → is_ready db2 ≡ true
    → Freed computed revision now before found
unfolding checked written_state is_ready
ready-Freed computed revision now before found db2 h same e o r =
    let k = h.resume in
    let l = h.activation in
    let enabled = h.enabled in
    let mail = h.mail in
    let paused' = h.paused in
    record {
      state = ground arith;
      quiet = ground arith;
      enabled = ground arith;
      mail = ground arith;
      learned = ground arith;
      pending = ground arith;
      none_authorized = ground arith;
    }

-- a row that is not ready stays as blocked as it was
unready-blocked :
    (computed : Monitoring) (revision : ℕ) (now : Instant) (found db2 : Db)
    → db2.automation
      ≡ checked
          (written_state (blocking_anomaly_count now found) computed)
          revision
          now
          found.automation
    → is_ready db2 ≡ false
    → is_blocked found.automation ≡ true
    → is_blocked (activate db2).automation ≡ true
unfolding checked written_state activate is_blocked
unready-blocked computed revision now found db2 e r b = ground arith

module _ {ℓ} {A : Type ℓ} where
  any-keep : (p q : A → Bool) (xs : List A) → any p xs ≡ false → any p (keep q xs) ≡ false
  unfolding any keep
  any-keep p q [] h = refl
  any-keep p q (x ∷ xs) h = ground (arith, any-keep p q xs)

  any-update :
      (p : A → Bool) (f : A → A) (xs : List A)
      → ((x : A) → p (f x) ≡ false)
      → any p (update p f xs) ≡ false
  unfolding any update
  any-update p f [] h = refl
  any-update p f (x ∷ xs) h = ground (arith, h x, any-update p f xs h)

module _ (id : ℕ) (outcome : CheckStatus) (summary : String) (state : Monitoring) (revision : ℕ)
    (now : Instant) where
  cleanup_checks-automation :
      (cutoff : ℕ) (db : Db) → (cleanup_checks cutoff db).automation ≡ db.automation
  unfolding cleanup_checks
  cleanup_checks-automation cutoff db = refl

  activate-checks : (db : Db) → (activate db).checks ≡ db.checks
  unfolding activate
  activate-checks db = ground arith

  ended :
      (found : Db)
      → is_outcome outcome ≡ true
      → any
          (λ c. c.id == id && is_running c)
          (cleanup_checks
            (unix now - retention_seconds)
            (activate (record_check id outcome summary state revision now found))).checks
        ≡ false
  unfolding cleanup_checks record_check
  ended found h = any-keep _ _ _ (
      rw (activate-checks (record_check id outcome summary state revision now found))
        (any-update _ (finished outcome summary now) found.checks λ c. ground arith))

  freed :
      (before found : Db)
      → OnlyHolds before.automation found.automation
      → found.operations ≡ before.operations
      → is_blocked
          (cleanup_checks
            (unix now - retention_seconds)
            (activate (record_check id outcome summary state revision now found))).automation
        ≡ false
      → (is_blocked before.automation ≡ false) ⊎ Freed state revision now before found
  freed before found h same free =
      let db2 = record_check id outcome summary state revision now found in
      elim (Bool-cases (is_ready db2)) [
        | inl hit ↦ inr (
            ready-Freed state revision now before found db2 h same (unfold record_check in refl)
              (unfold record_check in refl) hit)
        | inr miss ↦ elim (Bool-cases (is_blocked before.automation)) [
          | inr open_before ↦ inl open_before
          | inl held ↦
              let still =
                unready-blocked state revision now found db2 (unfold record_check in refl) miss
                  (h.blocked held) in
              absurd (
                ground (
                  arith,
                  ap is_blocked
                      (cleanup_checks-automation (unix now - retention_seconds) (activate db2)),
                ))
        ]
      ]

-- what a completion that is accepted has gone through
pub record Passed (env : Environment) (id : ℕ) (outcome : CheckStatus) (summary : String)
    (state : Monitoring) (revision : ℕ) (findings : List Finding) (now : Instant) (db db' : Db)
    : Type 0 where
  pub valid : is_outcome outcome ≡ true
  pub alone : count (λ c. c.id == id && is_running c) db.checks ≡ 1
  pub current : (db.automation.model_revision ≡ 0) ⊎ (db.automation.model_revision ≡ revision)
  pub found : Db
  pub opened : open_findings env findings now db ≡ ok found
  pub done :
      db'
      ≡ cleanup_checks
          (unix now - retention_seconds)
          (activate (record_check id outcome summary state revision now found))

pub complete_check-Passed :
    (env : Environment) (id : ℕ) (outcome : CheckStatus) (summary : String) (state : Monitoring)
    (revision : ℕ) (findings : List Finding) (now : Instant) (db db' : Db)
    → complete_check env id outcome summary state revision findings now db ≡ ok db'
    → Passed env id outcome summary state revision findings now db db'
unfolding complete_check
complete_check-Passed env id outcome summary state revision findings now db db' h =
    let (u1, valid, r1) =
      >>=-eq-ok (ensure (is_outcome outcome) (refused "esito controllo non valido")) _ h in
    let (u2, fits, r2) =
      >>=-eq-ok
        (ensure
          (is_clean outcome && is_empty findings
            || not (is_clean outcome) && not (is_empty findings))
          (refused "esito controllo incoerente con le anomalie"))
        _ r1 in
    let (u3, short, r3) =
      >>=-eq-ok
        (refuse_if (ltb 8192 (byte_count (codes summary)))
          (refused "riepilogo controllo troppo lungo"))
        _ r2 in
    let (u4, single, r4) =
      >>=-eq-ok
        (ensure (count (λ c. c.id == id && is_running c) db.checks == 1)
          (refused "controllo non piu in corso o invalidato dalla configurazione"))
        _ r3 in
    let (u5, fresh, r5) =
      >>=-eq-ok
        (refuse_if
          (not (db.automation.model_revision == 0)
            && not (db.automation.model_revision == revision))
          (refused "controllo obsoleto: revisione del modello cambiata; ripetere il controllo"))
        _ r4 in
    let (found, opened, r6) = >>=-eq-ok (open_findings env findings now db) _ r5 in
    let (u6, still, r7) =
      >>=-eq-ok
        (ensure (count (λ c. c.id == id && is_running c) found.checks == 1)
          (refused "controllo non piu in corso"))
        _ r6 in
    record {
      valid = ensure-ok _ _ u1 valid;
      alone = ground arith;
      current = ground arith;
      found = found;
      opened = opened;
      done = cc;
    }

-- A completion that is accepted ends a check that was running, exactly one, of the revision that is current (or of
-- the first learning), and that check is not running afterwards. If the removal of deposits is free afterwards,
-- it was free before, or this check has freed it: the state is regular, no open incident blocks, the revision is
-- not zero, the mail was tested, an activation or a resumption was pending, and no operation is authorized.
pub complete_check-IsEarned :
    (env : Environment) (id : ℕ) (outcome : CheckStatus) (summary : String) (state : Monitoring)
    (revision : ℕ) (findings : List Finding) (now : Instant) (db db' : Db)
    → complete_check env id outcome summary state revision findings now db ≡ ok db'
    → (count (λ c. c.id == id && is_running c) db.checks ≡ 1)
      × ((db.automation.model_revision ≡ 0) ⊎ (db.automation.model_revision ≡ revision))
      × (any (λ c. c.id == id && is_running c) db'.checks ≡ false)
      × (is_blocked db'.automation ≡ false
          → (is_blocked db.automation ≡ false)
            ⊎ ((found : Db) × (open_findings env findings now db ≡ ok found)
                × Freed state revision now db found))
complete_check-IsEarned env id outcome summary state revision findings now db db' h =
    let p = complete_check-Passed env id outcome summary state revision findings now db db' h in
    let done = p.done in
    (
      p.alone,
      p.current,
      rw done (ended id outcome summary state revision now p.found p.valid),
      λ free.
          elim (freed id outcome summary state revision now db p.found
            (open_findings-OnlyHolds env findings now db p.found p.opened)
            (open_findings-KeepsWork env findings now db p.found p.opened).operations
            (rw done at free)) [
              | inl before ↦ inl before
              | inr now_free ↦ inr (p.found, p.opened, now_free)
            ],
    )
