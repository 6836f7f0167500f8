-- ===== src/Store/Checks/Holds.antt =====
-- What an incident does to the row of the automation.
use onlybackup.Prelude.{
  String, ◌≡◌, refl, ◌∙◌, ◌⊎◌, inl, inr, Bool, true, List, [], ◌∷◌, nat_eq, ok, >>=-eq-ok, arith,
}
use onlybackup.Model.Types.{Instant, state_eq}
use onlybackup.Catalog.Tables.{Db, Environment, Automation, is_blocked}
use onlybackup.Store.Anomaly.{open_anomaly_at, open_new, record_excluded, block_for_anomaly}
use onlybackup.Store.Mail.{queue_mail}
use onlybackup.Store.Complete.{Finding, open_findings}

-- What an incident does to the row of the automation: it never unblocks and never asks for an activation.
pub record OnlyHolds (a b : Automation) : Type 0 where
  pub blocked : is_blocked a ≡ true → is_blocked b ≡ true
  pub resume : b.resume_pending ≡ true → a.resume_pending ≡ true
  pub activation : b.activation_pending ≡ true → a.activation_pending ≡ true
  pub enabled : b.enabled ≡ a.enabled
  pub mail : b.mail_tested ≡ a.mail_tested
  pub paused : b.manual_paused ≡ a.manual_paused
  pub revision : b.model_revision ≡ a.model_revision

OnlyHolds-refl : (a : Automation) → OnlyHolds a a
OnlyHolds-refl a = record {
  blocked = λ h. h;
  resume = λ h. h;
  activation = λ h. h;
  enabled = refl;
  mail = refl;
  paused = refl;
  revision = refl;
}

OnlyHolds-trans : {a b c : Automation} → OnlyHolds a b → OnlyHolds b c → OnlyHolds a c
OnlyHolds-trans h k = record {
  blocked = λ t. k.blocked (h.blocked t);
  resume = λ t. h.resume (k.resume t);
  activation = λ t. h.activation (k.activation t);
  enabled = k.enabled ∙ h.enabled;
  mail = k.mail ∙ h.mail;
  paused = k.paused ∙ h.paused;
  revision = k.revision ∙ h.revision;
}

block_for_anomaly-OnlyHolds :
    (detail : String) (a : Automation) → OnlyHolds a (block_for_anomaly detail a)
unfolding block_for_anomaly is_blocked
block_for_anomaly-OnlyHolds detail a = record {
  blocked = λ h. refl;
  resume = λ h. absurd (ground arith);
  activation = λ h. absurd (ground arith);
  enabled = refl;
  mail = refl;
  paused = refl;
  revision = refl;
}

-- the row after an incident is the old one, or held for it
open_anomaly_at-automation :
    (env : Environment) (s k i b d : String) (event_at now : Instant) (db : Db) (r : Bool × Db)
    → open_anomaly_at env s k i b d event_at now db ≡ ok r
    → (r.1.automation ≡ db.automation) ⊎ (r.1.automation ≡ block_for_anomaly d db.automation)
unfolding open_anomaly_at open_new queue_mail record_excluded
open_anomaly_at-automation env s k i b d event_at now db r h = ground arith

open_anomaly_at-OnlyHolds :
    (env : Environment) (s k i b d : String) (event_at now : Instant) (db : Db) (r : Bool × Db)
    → open_anomaly_at env s k i b d event_at now db ≡ ok r
    → OnlyHolds db.automation r.1.automation
open_anomaly_at-OnlyHolds env s k i b d event_at now db r h =
    elim (open_anomaly_at-automation env s k i b d event_at now db r h) [
      | inl same ↦ rw same (OnlyHolds-refl db.automation)
      | inr holds ↦ rw holds (block_for_anomaly-OnlyHolds d db.automation)
    ]

pub open_findings-OnlyHolds :
    (env : Environment) (fs : List Finding) (now : Instant) (db db' : Db)
    → open_findings env fs now db ≡ ok db'
    → OnlyHolds db.automation db'.automation
unfolding open_findings
open_findings-OnlyHolds env [] now db db' h =
    let e : db' ≡ db = cc in rw e (OnlyHolds-refl db.automation)
open_findings-OnlyHolds env (f ∷ fs) now db db' h =
    let (r, one, rest) =
      >>=-eq-ok (open_anomaly_at env f.stable_key f.kind f.key_id f.backup_id f.detail f.at now db)
        _ h in
    OnlyHolds-trans (open_anomaly_at-OnlyHolds env _ _ _ _ _ f.at now db r one)
      (open_findings-OnlyHolds env fs now r.1 db' rest)
