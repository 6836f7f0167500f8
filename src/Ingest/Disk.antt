-- ===== src/Ingest/Disk.antt =====
-- checkDisk of internal/ingest/writer.go, from the answer of statfs.
use onlybackup.Prelude.{
  ℕ, ◌+◌, ◌-◌, ◌*◌, ◌/◌, ◌^◌, ◌≤◌, ◌<◌, ◌≡◌, refl, ◌||◌, Option, none, some, ltb, ◌==◌, nat_eq,
  Result, ok, refused, disk_full, from_option, refuse_if, ◌>>=◌, ◌>>◌, arith,
}
use onlybackup.Policy.Capacity.{max_uint64}
use onlybackup.Policy.Capacity.Bounds.{product_fits}

-- the fields of Statfs_t that are read; a negative block size is written 0
pub record Statfs : Type 0 where
  pub block_size : ℕ
  pub available : ℕ

-- checkDisk
unfoldable pub check_disk : Option Statfs → ℕ → ℕ → Result (Unit {0})
check_disk answer reserve_free reserved = do
  fs ← from_option answer (refused "statfs")
  refuse_if (fs.block_size == 0) (refused "contabilita spazio disco non valida")
  refuse_if (ltb (max_uint64 / fs.block_size) fs.available)
      (refused "spazio disco non rappresentabile")
  refuse_if
      (ltb (fs.available * fs.block_size) reserve_free
        || ltb (fs.available * fs.block_size - reserve_free) reserved)
      disk_full

-- A check that passes has measured, in uint64 and without a wrap, room for all reserved bytes beside the bytes
-- that are to stay free.
pub check_disk-IsSound :
    (answer : Option Statfs) (reserve_free reserved : ℕ)
    → check_disk answer reserve_free reserved ≡ ok tt
    → (fs : Statfs) × (answer ≡ some fs)
      × (fs.available * fs.block_size ≤ 2 ^ 64 - 1)
      × (reserved + reserve_free ≤ fs.available * fs.block_size)
unfolding check_disk
check_disk-IsSound none reserve_free reserved h = cc
check_disk-IsSound (some fs) reserve_free reserved h =
    let positive : 0 < fs.block_size = ground arith in
    let room : fs.available ≤ max_uint64 / fs.block_size = ground arith in
    (fs, refl, product_fits max_uint64 fs.block_size fs.available positive room, ground arith)
