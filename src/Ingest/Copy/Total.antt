-- ===== src/Ingest/Copy/Total.antt =====
-- The loop of copyAndHash, round by round.
use mathlib.Core.List.{append_assoc, append-nil}
use onlybackup.Prelude.{
  ℕ, zero, suc, ◌+◌, ◌-◌, ◌≤◌, ◌<◌, min, ◌≡◌, refl, sym, ap, ◌∙◌, inl, inr, ◌⊎◌, Option, none, some,
  List, [], ◌++◌, length, length-append, take, length-take, ◌==◌, nat_eq, arith, Bool-cases,
}
use onlybackup.Ingest.Copy.{
  Devices, IsDevices, ReadAnswer, Copied, CopyEnd, finished, read_failed, write_failed, ReadError,
  eof, broken, read_end, write_all, after_round, copy_loop, copy_and_hash,
}

-- What is hashed so far stands in the file, after what stood there at first.
record IsHashed (d : Devices) (base : List ℕ) (c : Copied d.S) : Type 0 where
  file : d.content c.sink ≡ base ++ c.hashed
  counted : c.total ≡ length c.hashed

module _ (d : Devices) (laws : IsDevices d) where
  write_all-IsHashed :
      (a : ReadAnswer d.R) (base : List ℕ) (total : ℕ) (hashed : List ℕ) (s : d.S)
      → d.content s ≡ base ++ hashed
      → total ≡ length hashed
      → IsHashed d base (write_all d a total hashed s)
        × ((write_all d a total hashed s).total ≤ total + length a.bytes)
  unfolding write_all
  write_all-IsHashed a base total hashed s file counted = elim (Bool-cases (length a.bytes == 0)) [
    | inl empty ↦ rw empty (record { file = file; counted = counted }, omega arith)
    | inr full ↦
        let w = d.write a.bytes s in
        let taken = length-take w.written a.bytes (laws.prefix_taken a.bytes s) in
        rw full (
          record {
            file =
                laws.appended a.bytes s
                ∙ ap (λ x. x ++ take w.written a.bytes) file
                ∙ append_assoc base hashed (take w.written a.bytes);
            counted = omega (arith, counted, taken, length-append hashed (take w.written a.bytes));
          },
          omega (arith, laws.prefix_taken a.bytes s),
        )
  ]

  after_round-cases :
      (e : CopyEnd) (o : Option CopyEnd) (c : Copied d.S) (again : Option (Copied d.S))
      (r : Copied d.S)
      → after_round d e o c again ≡ some r
      → (again ≡ some r) ⊎ ((x : CopyEnd) × (r ≡ record c { ending = x }))
  unfolding after_round
  after_round-cases finished none c again r h = inl h
  after_round-cases finished (some e) c again r h = inr (e, ground arith)
  after_round-cases read_failed o c again r h = inr (c.ending, ground arith)
  after_round-cases write_failed o c again r h = inr (c.ending, ground arith)

  after_round-total :
      (e : CopyEnd) (o : Option CopyEnd) (c : Copied d.S) (again : Option (Copied d.S))
      → (e ≡ finished → o ≡ none → (r : Copied d.S) × (again ≡ some r))
      → (r : Copied d.S) × (after_round d e o c again ≡ some r)
  unfolding after_round
  after_round-total finished none c again h = h refl refl
  after_round-total finished (some e) c again h = (record c { ending = e }, refl)
  after_round-total read_failed o c again h = (c, refl)
  after_round-total write_failed o c again h = (c, refl)

  copy_loop-IsHashed :
      (fuel left total : ℕ) (hashed base : List ℕ) (r : d.R) (s : d.S) (c : Copied d.S)
      → d.content s ≡ base ++ hashed
      → total ≡ length hashed
      → copy_loop d fuel left total hashed r s ≡ some c
      → IsHashed d base c × (c.total ≤ total + left)
  unfolding copy_loop
  copy_loop-IsHashed zero left total hashed base r s c file counted h = cc
  copy_loop-IsHashed (suc fuel) left total hashed base r s c file counted h =
      let a = d.read (min 131072 left) r in
      let one = write_all d a total hashed s in
      let (inv, more) = write_all-IsHashed a base total hashed s file counted in
      let few : length a.bytes ≤ left = omega (arith, laws.asked (min 131072 left) r) in
      let rest =
        copy_loop-IsHashed fuel (left - length a.bytes) one.total one.hashed base a.rest one.sink c
          inv.file inv.counted in
      elim (Bool-cases (left == 0)) [
        | inl full ↦
            let e : record { total = total; hashed = hashed; ending = finished; sink = s } ≡ c =
              ground arith in
            rw (← e) (record { file = file; counted = counted }, omega arith)
        | inr more_left ↦
            elim (after_round-cases one.ending (read_end d a.error (length a.bytes == 0)) one _ c
              (rw more_left at h)) [
                | inl again ↦
                    let (held, bound) = rest again in (held, omega (arith, bound, more, few))
                | inr (x, e) ↦
                    rw e
                      (record { file = inv.file; counted = inv.counted }, omega (arith, more, few))
              ]
      ]

  shorter :
      (e : Option ReadError) (bytes : List ℕ) (left fuel : ℕ)
      → left < suc fuel
      → 0 < left
      → read_end d e (length bytes == 0) ≡ none
      → left - length bytes < fuel
  unfolding read_end
  shorter none bytes left fuel h p o = ground arith
  shorter (some eof) bytes left fuel h p o = cc
  shorter (some broken) bytes left fuel h p o = cc

  copy_loop-IsTotal :
      (fuel left total : ℕ) (hashed : List ℕ) (r : d.R) (s : d.S)
      → left < fuel
      → (c : Copied d.S) × (copy_loop d fuel left total hashed r s ≡ some c)
  unfolding copy_loop
  copy_loop-IsTotal zero left total hashed r s h = elim h [ ]
  copy_loop-IsTotal (suc fuel) left total hashed r s h =
      let a = d.read (min 131072 left) r in
      let one = write_all d a total hashed s in
      elim (Bool-cases (left == 0)) [
        | inl full ↦
            rw full (record { total = total; hashed = hashed; ending = finished; sink = s }, refl)
        | inr more_left ↦ rw more_left (
            after_round-total one.ending (read_end d a.error (length a.bytes == 0)) one _ λ e o.
              copy_loop-IsTotal fuel (left - length a.bytes) one.total one.hashed a.rest one.sink
                (shorter a.error a.bytes left fuel h (ground arith) o))
      ]

  -- copyAndHash always returns. It has read at most the limit, and the bytes that it hashed, whose number is
  -- the one it returns, are those that stand in the file after what stood there before.
  pub copy_and_hash-IsHashed :
      (limit : ℕ) (r : d.R) (s : d.S)
      → (c : Copied d.S) × (copy_and_hash d limit r s ≡ some c)
        × (d.content c.sink ≡ d.content s ++ c.hashed)
        × (c.total ≡ length c.hashed)
        × (c.total ≤ limit)
  unfolding copy_and_hash
  copy_and_hash-IsHashed limit r s =
      let (c, e) = copy_loop-IsTotal (limit + 1) limit 0 [] r s (omega arith) in
      let (held, bound) =
        copy_loop-IsHashed (limit + 1) limit 0 [] (d.content s) r s c
          (sym (append-nil (d.content s))) refl e in
      (c, e, held.file, held.counted, omega (arith, bound))
