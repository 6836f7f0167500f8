-- ===== src/Store/Mail.antt =====
-- The mail queue of internal/store/retention.go and internal/store/mail_anomaly.go: QueueReport,
-- QueuePeriodicReport, anomalyMail, missingBackupMailTx and ConfirmMail.
use Prim.Native.Nat.{Ordering}
use Prim.Native.String
use onlybackup.Prelude.{
  ℕ, ◌+◌, ◌*◌, ◌^◌, min, String, Bool, true, false, ◌&&◌, ◌||◌, not, Option, none, some, List, [],
  ◌∷◌, ◌++◌, ltb, ◌==◌, nat_eq, string_eq, if◌then◌else◌, Result, ok, err, constraint, no_rows,
  from_option, ◌>>=◌, select, update, any,
}
use onlybackup.Model.Types.{
  Instant, unix, minute, hour, Received, unset, stamped, malformed, Backup, Key, complete, deleting,
  quarantined, purging, deleted, MailMessage, status_eq,
}
use onlybackup.Model.Text.{concat, starts_with}
use onlybackup.Policy.Warning.{is_quarantine_margin_warning}
use onlybackup.Catalog.Tables.{Db, Environment, Location}

-- INSERT INTO mail_queue; stable_id is UNIQUE
unfoldable pub queue_mail : String → String → String → String → Instant → Db → Result Db
queue_mail stable_id kind subject body now db =
    if any (λ m. m.stable_id == stable_id) db.mail_queue
    then err (constraint "mail_queue.stable_id")
    else ok (record db {
      mail_queue =
          db.mail_queue
          ++ record {
            id = db.next_mail;
            stable_id = stable_id;
            kind = kind;
            subject = subject;
            body = body;
            attempts = 0;
            next_attempt = unix now;
            sent_at = 0;
            last_error = "";
          }
            ∷ [];
      next_mail = db.next_mail + 1;
    })

-- INSERT OR IGNORE
or_ignore : Result Db → Db → Db
or_ignore (ok db') db = db'
or_ignore (err e) db = db

unfoldable pub queue_report : String → String → String → Instant → Db → Db
unfolding or_ignore
queue_report stable_id subject body now db =
    or_ignore (queue_mail stable_id "report" subject body now db) db

unfoldable pub queue_periodic_report : String → String → String → Instant → Db → Db
unfolding queue_report
queue_periodic_report stable_id subject body now db =
    let queued = queue_report stable_id subject body now db in
    record queued {
      automation = record queued.automation { next_report_at = unix (now + 72 * hour) };
    }

-- anomalyMail
unfoldable pub anomaly_mail : String → String → String → String × String
anomaly_mail stable_key kind detail =
    if is_quarantine_margin_warning kind stable_key
    then (
      "OnlyBackup: AVVISO NON BLOCCANTE - margine di spazio",
      concat detail
          "\nLa retention può proseguire per liberare spazio; restano validi gli altri blocchi e le protezioni delle copie.",
    )
    else if kind == "extra"
    then (
      "OnlyBackup: AVVISO NON BLOCCANTE - copie eccedenti",
      concat detail
          "\nQuesta anomalia non sospende la retention; eventuali altri blocchi restano validi.",
    )
    else ("OnlyBackup: nuova anomalia", detail)

-- received_at<>'' AND status IN (…) of missingBackupMailTx
abbrev has_arrived : Backup → Bool
has_arrived b =
    b.status == complete
    || b.status == deleting
    || b.status == quarantined
    || b.status == purging
    || b.status == deleted

abbrev text_lt : String → String → Bool
text_lt s t = elim (String.compare s t) [ Ordering.lt ↦ true | _ ↦ false ]

-- the one that ORDER BY julianday(received_at) DESC, received_at DESC puts first: julianday of a text that
-- is no time is NULL, which comes last
later : Received → Received → Received
later unset r = r
later (malformed s) unset = malformed s
later (malformed s) (malformed t) = if text_lt s t then malformed t else malformed s
later (malformed s) r = r
later (stamped t) (stamped u) = if ltb t u then stamped u else stamped t
later (stamped t) _ = stamped t

unfoldable pub latest_received : String → List Backup → Received
unfolding later
latest_received key_id [] = unset
latest_received key_id (b ∷ bs) =
    let rest = latest_received key_id bs in
    if b.key_id == key_id && has_arrived b then later b.received_at rest else rest

key_name : String → Option Key → String
key_name key_id none = key_id
key_name key_id (some k) = k.name

-- a time zone that does not load, and the empty one, give UTC
zone_name : String → Option Location → String
zone_name timezone none = "UTC"
zone_name timezone (some _) = if timezone == "" then "UTC" else timezone

received_text : Environment → String → Received → String
received_text env zone unset = "nessuna"
received_text env zone (stamped t) = env.format_time zone t
received_text env zone (malformed s) = s

-- missingBackupMailTx
unfoldable pub missing_backup_mail : Environment → String → Instant → Db → String × String
unfolding key_name zone_name received_text
missing_backup_mail env key_id expected_at db =
    let name = key_name key_id (select (λ k. k.id == key_id) db.keys) in
    let zone = zone_name db.automation.timezone (env.load_location db.automation.timezone) in
    let latest = received_text env zone (latest_received key_id db.backups) in
    (
      concat "OnlyBackup: backup mancante | " name,
      concat name (
          concat ": backup del " (
            concat (env.format_time zone expected_at) (
              concat " non ricevuto.\nUltima ricevuta: "
                (concat latest ".\nVerifica server e invio del client.")))),
    )

-- ConfirmMail: a delivery, or the next attempt after 2^min(attempts, 8) minutes
delivered : MailMessage → ℕ → Instant → Db → Db
delivered m config_version now db =
    let sent = record db {
      mail_queue =
          update (λ r. r.id == m.id && r.sent_at == 0)
            (λ r. record r { sent_at = unix now; last_error = "" }) db.mail_queue;
    } in
    if not (config_version == 0)
      && starts_with m.stable_id "mail-test:"
      && db.automation.mail_config_version == config_version
    then record sent {
      automation = record sent.automation {
        mail_tested = true;
        next_report_at =
            if sent.automation.next_report_at == 0
            then unix (now + 72 * hour)
            else sent.automation.next_report_at;
      };
    }
    else sent

retried : MailMessage → String → Instant → Db → Db
retried m send_error now db = record db {
  mail_queue =
      update (λ r. r.id == m.id && r.sent_at == 0)
        (λ r. record r {
          attempts = r.attempts + 1;
          next_attempt = unix (now + minute * 2 ^ min m.attempts 8);
          last_error = send_error;
        })
        db.mail_queue;
}

unfoldable pub confirm_mail : ℕ → String → ℕ → Instant → Db → Result Db
unfolding delivered retried
confirm_mail id send_error config_version now db = do
  m ← from_option (select (λ r. r.id == id) db.mail_queue) no_rows
  ok (
      if not (m.sent_at == 0)
      then db
      else if send_error == ""
      then delivered m config_version now db
      else retried m send_error now db)
