-- ===== src/Ingest/Copy.antt =====
-- copyAndHash of internal/ingest/writer.go. What the network delivers and what the file system takes are
-- devices: a reader that answers each read, and a sink that takes each write.
pub mod Total
use onlybackup.Prelude.{
  ℕ, zero, suc, ◌+◌, ◌-◌, ◌*◌, ◌≤◌, ◌<◌, min, String, ◌≡◌, ◌≢◌, refl, sym, ap, ◌∙◌, ◌⊎◌, inl, inr,
  Bool, true, false, not, Option, none, some, List, [], ◌∷◌, ◌++◌, length, length-append, take,
  length-take, ltb, ◌==◌, nat_eq, if◌then◌else◌, arith, Bool-cases,
}

pub data ReadError : Type 0 where
  eof broken : ReadError

pub record ReadAnswer (R : Type 0) : Type 0 where
  pub bytes : List ℕ
  pub error : Option ReadError
  pub rest : R

pub record WriteAnswer (S : Type 0) : Type 0 where
  pub written : ℕ
  pub failed : Bool
  pub next : S

-- io.Reader and io.Writer, with the contents of the file that is written
pub record Devices : Type 1 where
  pub R : Type 0
  pub S : Type 0
  pub read : ℕ → R → ReadAnswer R
  pub write : List ℕ → S → WriteAnswer S
  pub content : S → List ℕ

-- A read returns at most what was asked for; a write takes a prefix and appends it.
pub record IsDevices (d : Devices) : Type 0 where
  pub asked : (n : ℕ) (r : d.R) → length ((d.read n r).bytes) ≤ n
  pub prefix_taken : (bs : List ℕ) (s : d.S) → (d.write bs s).written ≤ length bs
  pub appended :
      (bs : List ℕ) (s : d.S)
      → d.content ((d.write bs s).next) ≡ d.content s ++ take ((d.write bs s).written) bs

pub data CopyEnd : Type 0 where
  finished read_failed write_failed : CopyEnd

-- what is returned: the bytes that were hashed are those whose digest is returned
pub record Copied (S : Type 0) : Type 0 where
  pub total : ℕ
  pub hashed : List ℕ
  pub ending : CopyEnd
  pub sink : S

abbrev buffer : ℕ
buffer = 128 * 1024

module _ (d : Devices) where
  -- The end of a round that has written all that it read: `none` is another round.
  unfoldable pub read_end : Option ReadError → Bool → Option CopyEnd
  read_end (some eof) empty = some finished
  read_end (some broken) empty = some read_failed
  read_end none true = some read_failed
  read_end none false = none

  -- what `dst.Write(buf[:n])` and the hash make of a read
  unfoldable pub write_all : ReadAnswer d.R → ℕ → List ℕ → d.S → Copied d.S
  write_all a total hashed s =
      if length a.bytes == 0
      then record { total = total; hashed = hashed; ending = finished; sink = s }
      else let w = d.write a.bytes s in
        record {
          total = total + w.written;
          hashed = hashed ++ take w.written a.bytes;
          ending =
              if w.failed
              then write_failed
              else if w.written == length a.bytes
              then finished
              else write_failed;
          sink = w.next;
        }

  -- A round that could not write everything ends the loop, and so does a read that ended or failed.
  unfoldable pub after_round :
      CopyEnd → Option CopyEnd → Copied d.S → Option (Copied d.S) → Option (Copied d.S)
  after_round finished none c again = again
  after_round finished (some e) c again = some (record c { ending = e })
  after_round other read c again = some c

  -- The loop, with `left` the N of the LimitedReader; `none` is fuel that ran out.
  unfoldable pub copy_loop : ℕ → ℕ → ℕ → List ℕ → d.R → d.S → Option (Copied d.S)
  unfolding after_round
  copy_loop zero left total hashed r s = none
  copy_loop (suc fuel) left total hashed r s =
      let a = d.read (min buffer left) r in
      let c = write_all a total hashed s in
      let again = copy_loop fuel (left - length a.bytes) c.total c.hashed a.rest c.sink in
      if left == 0
      then some (record { total = total; hashed = hashed; ending = finished; sink = s })
      else after_round c.ending (read_end a.error (length a.bytes == 0)) c again

  -- copyAndHash
  unfoldable pub copy_and_hash : ℕ → d.R → d.S → Option (Copied d.S)
  unfolding copy_loop
  copy_and_hash limit r s = copy_loop (limit + 1) limit 0 [] r s
