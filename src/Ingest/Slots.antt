-- ===== src/Ingest/Slots.antt =====
-- The slots of internal/ingest/writer.go: Admit, Abort and release, and their use by any number of transfers
-- that run at once.
use onlybackup.Prelude.{
  ℕ, suc, ◌+◌, ◌-◌, ◌≤◌, ◌<◌, String, ◌≡◌, refl, Bool, true, false, not, Option, some, List, [],
  ◌∷◌, ◌++◌, ltb, ◌==◌, nat_eq, if◌then◌else◌, Result, Error, ok, err, busy, count, Bool-cases,
  Result-cases, ◌⊎◌, inl, inr, arith,
}
use onlybackup.Model.Types.{Instant, Backup, receiving, complete, status_eq}
use onlybackup.Catalog.Rows.{count-append}
use onlybackup.Catalog.Tables.{Db, Environment}
use onlybackup.Store.Failure.{fail}
use onlybackup.Store.Reserve.{Request, reserve}
use onlybackup.Ingest.Disk.{Statfs, check_disk}

-- Admission; `released` is the state of its sync.Once
pub record Upload : Type 0 where
  pub backup : Backup
  pub is_released : Bool

-- the capacity of the channel that New makes
abbrev pub capacity : ℕ
capacity = 32

-- The number of values in the channel, and the catalogue.
pub record Server : Type 0 where
  pub slots : ℕ
  pub db : Db

-- release
unfoldable pub release : Upload → Server → Upload × Server
release u s =
    if u.is_released
    then (u, s)
    else (record u { is_released = true }, record s { slots = s.slots - 1 })

released_if : Bool → Upload → Server → Upload × Server
unfolding release
released_if true u s = release u s
released_if false u s = (u, s)

admitted : Server → Result (Backup × Db) → Result Upload × Server
unfolding released_if
admitted s (err e) = (err e, record s { slots = s.slots - 1 })
admitted s (ok (b, db)) =
    let (u, s') =
      released_if (b.status == complete) (record { backup = b; is_released = false })
        (record s { db = db }) in
    (ok u, s')

-- Admit, with the answer of statfs and the identifier that a new deposit would have
unfoldable pub admit :
    Environment → Option Statfs → ℕ → Request → String → Instant → Server → Result Upload × Server
unfolding admitted
admit env statfs reserve_free r fresh_id now s =
    if ltb s.slots capacity
    then admitted (record s { slots = s.slots + 1 })
        (reserve env r fresh_id now (some (check_disk statfs reserve_free)) s.db)
    else (err busy, s)

failed_or : Result Db → Server → Server
failed_or (ok db) s = record s { db = db }
failed_or (err e) s = s

-- Abort
unfoldable pub abort : Environment → String → Instant → Upload → Server → Upload × Server
unfolding failed_or
abort env reason now u s =
    release u (
      if u.backup.status == receiving
      then failed_or (fail env u.backup.id reason now s.db) s
      else s)

-- Everything that runs: the admissions that were made, and the server that they share.
pub record Uploads : Type 0 where
  pub server : Server
  pub made : List Upload

unfoldable pub record_admission : List Upload → Result Upload → List Upload
record_admission made (ok u) = made ++ u ∷ []
record_admission made (err e) = made

-- A request is admitted or not; an admission is aborted, or released at the end of Receive, which may have
-- changed the catalogue in any way. Either may happen again to the same admission.
pub data Step (env : Environment) : Uploads → Uploads → Type 0 where
  request :
      {s : Uploads} (statfs : Option Statfs) (reserve_free : ℕ) (r : Request) (fresh_id : String)
      (now : Instant)
      → Step env s (record {
        server = (admit env statfs reserve_free r fresh_id now s.server).1;
        made = record_admission s.made (admit env statfs reserve_free r fresh_id now s.server).0;
      })
  aborted :
      {s : Server} (before after : List Upload) (u : Upload) (reason : String) (now : Instant)
      → Step env
          (record { server = s; made = before ++ u ∷ after })
          (record {
            server = (abort env reason now u s).1;
            made = before ++ (abort env reason now u s).0 ∷ after;
          })
  received :
      {s : Server} (before after : List Upload) (u : Upload) (db : Db)
      → Step env
          (record { server = s; made = before ++ u ∷ after })
          (record {
            server = (release u (record s { db = db })).1;
            made = before ++ (release u (record s { db = db })).0 ∷ after;
          })

abbrev pub new_uploads : Db → Uploads
new_uploads db = record { server = record { slots = 0; db = db }; made = [] }

pub data Reach (env : Environment) (db : Db) : Uploads → Type 0 where
  start : Reach env db (new_uploads db)
  then_step : {s t : Uploads} → Reach env db s → Step env s t → Reach env db t

-- the admissions that hold a slot
unfoldable pub held : List Upload → ℕ
held = count (λ u. not u.is_released)

abbrev Accounted : Uploads → Type 0
Accounted s = (s.server.slots ≡ held s.made) × (s.server.slots ≤ capacity)

release-held :
    (before after : List Upload) (u : Upload) (s : Server)
    → s.slots ≡ held (before ++ u ∷ after)
    → s.slots ≤ capacity
    → ((release u s).1.slots ≡ held (before ++ (release u s).0 ∷ after))
      × ((release u s).1.slots ≤ capacity)
unfolding held release count
release-held before after u s h l =
    let whole = count-append (λ (x : Upload). not x.is_released) before (u ∷ after) in
    let rest =
      count-append (λ (x : Upload). not x.is_released) before
        (record u { is_released = true } ∷ after) in
    (ground (arith, whole, rest), ground arith)

failed_or-db : (r : Result Db) (s : Server) → (db : Db) × (failed_or r s ≡ record s { db = db })
unfolding failed_or
failed_or-db (ok db) s = (db, refl)
failed_or-db (err e) s = (s.db, refl)

abort-server :
    (env : Environment) (reason : String) (now : Instant) (u : Upload) (s : Server)
    → (db : Db) × (abort env reason now u s ≡ release u (record s { db = db }))
unfolding abort
abort-server env reason now u s = elim (Bool-cases (u.backup.status == receiving)) [
  | inl hit ↦
      let (db, e) = failed_or-db (fail env u.backup.id reason now s.db) s in
      (db, rw hit (rw e refl))
  | inr miss ↦ (s.db, rw miss refl)
]

admitted-held :
    (made : List Upload) (s : Server) (r : Result (Backup × Db))
    → s.slots ≡ suc (held made)
    → ((admitted s r).1.slots ≡ held (record_admission made (admitted s r).0))
      × ((admitted s r).1.slots ≤ s.slots)
unfolding held admitted record_admission release count released_if
admitted-held made s (err e) h = (omega (arith, h), omega arith)
admitted-held made s (ok (b, db)) h =
    let new =
      count-append (λ (x : Upload). not x.is_released) made
        (record { backup = b; is_released = false } ∷ []) in
    let spent =
      count-append (λ (x : Upload). not x.is_released) made
        (record { backup = b; is_released = true } ∷ []) in
    (ground (arith, new, spent), ground arith)

admit-held :
    (env : Environment) (statfs : Option Statfs) (reserve_free : ℕ) (r : Request)
    (fresh_id : String) (now : Instant) (s : Uploads)
    → Accounted s
    → Accounted (record {
      server = (admit env statfs reserve_free r fresh_id now s.server).1;
      made = record_admission s.made (admit env statfs reserve_free r fresh_id now s.server).0;
    })
unfolding admit record_admission
admit-held env statfs reserve_free r fresh_id now s h =
    elim (Bool-cases (ltb s.server.slots capacity)) [
      | inl room ↦
          let below : s.server.slots < capacity = ground arith in
          let one = record s.server { slots = s.server.slots + 1 } in
          let (same, less) =
            admitted-held s.made one
              (reserve env r fresh_id now (some (check_disk statfs reserve_free)) s.server.db)
              (omega (arith, h.0)) in
          rw room ((same, omega (arith, less, below)))
      | inr full ↦ rw full h
    ]

Step-Accounted : (env : Environment) {s t : Uploads} → Step env s t → Accounted s → Accounted t
Step-Accounted env (Step.request {s} statfs reserve_free r fresh_id now) h =
    admit-held env statfs reserve_free r fresh_id now s h
Step-Accounted env (Step.aborted {s} before after u reason now) h =
    let (db, e) = abort-server env reason now u s in
    rw e (release-held before after u (record s { db = db }) h.0 h.1)
Step-Accounted env (Step.received {s} before after u db) h =
    release-held before after u (record s { db = db }) h.0 h.1

-- Whatever requests are admitted, aborted and received, in any order and each of them any number of times, the
-- channel holds one value for each admission that is not released, and at most 32.
pub reached-Accounted :
    (env : Environment) (db : Db) (s : Uploads)
    → Reach env db s
    → (s.server.slots ≡ held s.made) × (s.server.slots ≤ capacity)
reached-Accounted env db _ start = (unfold held count in refl, omega arith)
reached-Accounted env db _ (then_step r st) = Step-Accounted env st (reached-Accounted env db _ r)

-- What an admission is: the reservation of the store, and a slot unless it is answered from the catalogue.
pub record IsAdmitted (answer : Result (Backup × Db)) (before after : Server) (u : Upload)
    : Type 0 where
  pub reserved : answer ≡ ok (u.backup, after.db)
  pub slot :
      (((u.backup.status == complete) ≡ true) × (after.slots ≡ before.slots))
      ⊎ (((u.backup.status == complete) ≡ false)
          × (u.is_released ≡ false)
          × (after.slots ≡ before.slots + 1))

admitted-IsAdmitted :
    (s : Server) (b : Backup) (db : Db)
    → (u : Upload) × (after : Server) × (admitted (record s { slots = s.slots + 1 }) (ok (b, db))
        ≡ (ok u, after))
      × IsAdmitted (ok (b, db)) s after u
unfolding admitted released_if release
admitted-IsAdmitted s b db = elim (Bool-cases (b.status == complete)) [
  | inl hit ↦ (
    record { backup = b; is_released = true },
    record { slots = s.slots; db = db },
    ground arith,
    record { reserved = refl; slot = inl (hit, refl) },
  )
  | inr miss ↦ (
    record { backup = b; is_released = false },
    record { slots = s.slots + 1; db = db },
    rw miss refl,
    record { reserved = refl; slot = inr (miss, refl, refl) },
  )
]

pub admit-cases :
    (env : Environment) (statfs : Option Statfs) (reserve_free : ℕ) (r : Request)
    (fresh_id : String) (now : Instant) (s : Server)
    → ((e : Error) × (admit env statfs reserve_free r fresh_id now s ≡ (err e, s)))
      ⊎ ((u : Upload) × (after : Server) × (admit env statfs reserve_free r fresh_id now s
            ≡ (ok u, after))
          × IsAdmitted
              (reserve env r fresh_id now (some (check_disk statfs reserve_free)) s.db)
              s
              after
              u)
unfolding admit
admit-cases env statfs reserve_free r fresh_id now s = elim (Bool-cases (ltb s.slots capacity)) [
  | inr full ↦ inl (busy, rw full refl)
  | inl room ↦
      elim (Result-cases
        (reserve env r fresh_id now (some (check_disk statfs reserve_free)) s.db)) [
          | inl (e, problem) ↦ inl (e, rw room (rw problem (unfold admitted in ground arith)))
          | inr ((b, db), done) ↦
              let (u, after, e, h) = admitted-IsAdmitted s b db in
              inr (u, after, rw room (rw done e), rw done h)
        ]
]
