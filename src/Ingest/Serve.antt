-- ===== src/Ingest/Serve.antt =====
-- ServeHTTP of internal/ingest/writer.go as a whole: the request is checked, admitted, and either answered from
-- the catalogue or received.
use onlybackup.Prelude.{
  ℕ, ◌+◌, ◌-◌, String, ◌≡◌, refl, inl, inr, false, Option, none, some, List, [], ◌==◌, nat_eq,
  if◌then◌else◌, Result, ok, err, arith,
}
use onlybackup.Model.Types.{Instant, Backup, complete, status_eq, same_status_iff}
use onlybackup.Model.Header.{Codec}
use onlybackup.Catalog.Tables.{Db, Environment}
use onlybackup.Store.Complete.{Finding}
use onlybackup.Store.Reserve.{Request, reserve}
use onlybackup.Ingest.Requests.{HttpRequest, Answer, reply, go, parse_request, admission_error}
use onlybackup.Ingest.Disk.{Statfs, check_disk}
use onlybackup.Ingest.Copy.{Devices, IsDevices}
use onlybackup.Ingest.Files.{Files, find_file}
use onlybackup.Ingest.Receive.{Faults, Reply, refused, receipt, Transfer, receive}
use onlybackup.Ingest.Receive.Receipt.{IsStored, receive-IsSafe}
use onlybackup.Ingest.Slots.{Upload, Server, release, admit, IsAdmitted, admit-cases}

-- What the handler answers, and the server and the files that it leaves.
pub record Served : Type 0 where
  pub reply : Reply
  pub server : Server
  pub files : Files

-- What the handler reads from outside: the time and the answer of statfs at the admission, and the identifier that
-- the store would draw.
pub record Moment : Type 0 where
  pub env : Environment
  pub statfs : Option Statfs
  pub reserve_free : ℕ
  pub fresh_id : String
  pub now : Instant

module _ (d : Devices) (sha256 : List ℕ → String) (f : Faults) (m : Moment)
    (findings : List Finding) where
  -- the end of Receive: its deferred release
  received : Upload → Server → Option Transfer → Option Served
  received u s none = none
  received u s (some t) =
      some (record {
        reply = t.reply;
        server = (release u (record s { db = t.db })).1;
        files = t.files;
      })

  admitted : d.R → d.S → Files → Result Upload × Server → Option Served
  unfolding received
  admitted body file files (err e, s) = some (record {
    reply = refused (admission_error e).0 (admission_error e).1;
    server = s;
    files = files;
  })
  admitted body file files (ok u, s) =
      if u.backup.status == complete
      then some (record { reply = receipt u.backup; server = s; files = files })
      else received u s (receive d sha256 f m.env m.now findings u.backup body file files s.db)

  handled : d.R → d.S → Files → Server → Answer Request → Option Served
  unfolding admitted
  handled body file files s (reply status message) =
      some (record { reply = refused status message; server = s; files = files })
  handled body file files s (go r) =
      admitted body file files (admit m.env m.statfs m.reserve_free r m.fresh_id m.now s)

  -- ServeHTTP; `none` would be a transfer that does not return.
  unfoldable pub serve : (c : Codec) → HttpRequest → d.R → d.S → Files → Server → Option Served
  unfolding handled
  serve c r body file files s = handled body file files s (parse_request c r)

-- A receipt: the deposit was complete in the catalogue already, or this transfer has stored it.
pub data IsReceipt (sha256 : List ℕ → String) (m : Moment) (findings : List Finding) (r : Request)
    (files : Files) (s : Server) (out : Served) (given : Backup) : Type 0 where
  repeated :
      (reserve m.env r m.fresh_id m.now (some (check_disk m.statfs m.reserve_free)) s.db
        ≡ ok (given, out.server.db))
      → given.status ≡ complete
      → out.files ≡ files
      → IsReceipt sha256 m findings r files s out given
  stored :
      (b : Backup) (db : Db) (t : Transfer)
      → reserve m.env r m.fresh_id m.now (some (check_disk m.statfs m.reserve_free)) s.db
        ≡ ok (b, db)
      → IsStored sha256 m.env m.now findings b files db t
      → (out.files ≡ t.files) × (out.server.db ≡ t.db)
      → IsReceipt sha256 m findings r files s out given

module _ (d : Devices) (laws : IsDevices d) (sha256 : List ℕ → String) (f : Faults) (m : Moment)
    (findings : List Finding) where
  received-slots :
      (u : Upload) (s after : Server) (t : Transfer)
      → u.is_released ≡ false
      → after.slots ≡ s.slots + 1
      → (out : Served) × (received d sha256 f m findings u after (some t) ≡ some out)
        × (out.server.slots ≡ s.slots)
        × (out.reply ≡ t.reply)
        × (out.files ≡ t.files)
        × (out.server.db ≡ t.db)
  unfolding received release
  received-slots u s after t fresh_slot taken = rw fresh_slot (
    record {
      reply = t.reply;
      server = record { slots = after.slots - 1; db = t.db };
      files = t.files;
    },
    refl,
    omega (arith, taken),
    refl,
    refl,
    refl,
  )

  -- what the handler leaves, after the checks
  abbrev Handled : Request → Files → Server → Option Served → Type 0
  Handled q files s o =
      (out : Served) × (o ≡ some out)
      × (out.server.slots ≡ s.slots)
      × ((id : String) (old : List ℕ)
          → find_file id files.archives ≡ some old
          → find_file id out.files.archives ≡ some old)
      × ((given : Backup)
          → out.reply ≡ receipt given
          → IsReceipt sha256 m findings q files s out given)

  admitted_upload-Handled :
      (body : d.R) (file : d.S) (files : Files) (q : Request) (s after : Server) (u : Upload)
      → d.content file ≡ []
      → IsAdmitted
          (reserve m.env q m.fresh_id m.now (some (check_disk m.statfs m.reserve_free)) s.db)
          s
          after
          u
      → Handled q files s (admitted d sha256 f m findings body file files (ok u, after))
  unfolding admitted
  admitted_upload-Handled body file files q s after u clean h = elim (h.slot) [
    | inl (hit, same) ↦ rw hit (
      record { reply = receipt u.backup; server = after; files = files },
      refl,
      same,
      λ id old e. e,
      λ given e.
          let is_given : u.backup ≡ given = ground arith in
          IsReceipt.repeated (rw is_given at h.reserved)
            (rw is_given at ((same_status_iff u.backup.status complete).0 hit)) refl,
    )
    | inr (miss, fresh_slot, taken) ↦
        let (t, returned, good, kept) =
          receive-IsSafe d laws sha256 f m.env m.now findings u.backup body file files after.db
            clean in
        let (out, e, slots, answer, left, db) = received-slots u s after t fresh_slot taken in
        rw miss (
          rw returned (
            out,
            e,
            slots,
            λ id old k. rw left (kept id old k),
            λ given k.
                IsReceipt.stored u.backup after.db t h.reserved (good given (rw answer at k))
                  (left, db),
          ))
  ]

  admitted-Handled :
      (body : d.R) (file : d.S) (files : Files) (q : Request) (s : Server)
      → d.content file ≡ []
      → Handled q files s (
          admitted d sha256 f m findings body file files
            (admit m.env m.statfs m.reserve_free q m.fresh_id m.now s))
  unfolding admitted
  admitted-Handled body file files q s clean =
      elim (admit-cases m.env m.statfs m.reserve_free q m.fresh_id m.now s) [
        | inl (e, refusal) ↦ rw refusal (
          record {
            reply = refused (admission_error e).0 (admission_error e).1;
            server = s;
            files = files;
          },
          refl,
          refl,
          λ id old h. h,
          λ given h. absurd (ground arith),
        )
        | inr (u, after, taken, h) ↦
            rw taken (admitted_upload-Handled body file files q s after u clean h)
      ]

  handled-Handled :
      (body : d.R) (file : d.S) (files : Files) (s : Server) (a : Answer Request)
      → d.content file ≡ []
      → (out : Served) × (handled d sha256 f m findings body file files s a ≡ some out)
        × (out.server.slots ≡ s.slots)
        × ((id : String) (old : List ℕ)
            → find_file id files.archives ≡ some old
            → find_file id out.files.archives ≡ some old)
        × ((given : Backup)
            → out.reply ≡ receipt given
            → (q : Request) × (a ≡ go q) × IsReceipt sha256 m findings q files s out given)
  unfolding handled
  handled-Handled body file files s (reply status message) clean = (
    record { reply = refused status message; server = s; files = files },
    refl,
    refl,
    λ id old h. h,
    λ given h. absurd (ground arith),
  )
  handled-Handled body file files s (go q) clean =
      let (out, e, slots, kept, good) = admitted-Handled body file files q s clean in
      (out, e, slots, kept, λ given h. (q, refl, good given h))

  -- The handler of an upload always returns, and whatever it answers, it holds no slot any more and every
  -- published file is still there with its contents. A receipt is answered only for a request that passed all
  -- checks, and either the catalogue already had the deposit complete, or its file is published with
  -- the size and the digest of the reserved deposit, nothing of it is left in incoming, and the catalogue has
  -- completed it.
  pub serve-IsSafe :
      (c : Codec) (r : HttpRequest) (body : d.R) (file : d.S) (files : Files) (s : Server)
      → d.content file ≡ []
      → (out : Served) × (serve d sha256 f m findings c r body file files s ≡ some out)
        × (out.server.slots ≡ s.slots)
        × ((id : String) (old : List ℕ)
            → find_file id files.archives ≡ some old
            → find_file id out.files.archives ≡ some old)
        × ((given : Backup)
            → out.reply ≡ receipt given
            → (q : Request) × (parse_request c r ≡ go q)
              × IsReceipt sha256 m findings q files s out given)
  unfolding serve
  serve-IsSafe c r body file files s clean =
      handled-Handled body file files s (parse_request c r) clean
