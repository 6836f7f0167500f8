-- ===== src/Policy/Capacity.antt =====
-- Filesystem, UsedBasisPoints, Bytes and DailyRequirement of internal/policy/policy.go, in uint64.
pub mod Bounds
use onlybackup.Prelude.{
  ℕ, ◌+◌, ◌-◌, ◌*◌, ◌/◌, ◌%◌, ◌^◌, ◌≤◌, ◌<◌, ◌≡◌, Bool, ◌||◌, ltb, ◌==◌, nat_eq, if◌then◌else◌,
  Result, ok, err, refused, refuse_if, ◌>>=◌, ◌>>◌, arith,
}

abbrev pub max_uint64 : ℕ
max_uint64 = 2 ^ 64 - 1

pub record Filesystem : Type 0 where
  pub blocks : ℕ
  pub blocks_free : ℕ
  pub blocks_available : ℕ
  pub block_size : ℕ

-- f.Blocks-f.Bfree, which wraps
abbrev pub used_blocks : Filesystem → ℕ
used_blocks f = (f.blocks + 2 ^ 64 - f.blocks_free) % 2 ^ 64

unfoldable pub used_basis_points : Filesystem → Result ℕ
used_basis_points f = do
  refuse_if (f.blocks == 0 || ltb f.blocks f.blocks_free || f.block_size == 0)
      (refused "misura filesystem non valida")
  refuse_if (ltb (max_uint64 / 10000) (used_blocks f))
      (refused "misura filesystem non rappresentabile")
  ok (used_blocks f * 10000 % 2 ^ 64 / f.blocks)

pub record Sizes : Type 0 where
  pub total : ℕ
  pub used : ℕ
  pub available : ℕ

unfoldable pub filesystem_bytes : Filesystem → Result Sizes
filesystem_bytes f = do
  basis ← used_basis_points f
  refuse_if
      (ltb (max_uint64 / f.block_size) f.blocks
        || ltb (max_uint64 / f.block_size) f.blocks_free
        || ltb (max_uint64 / f.block_size) f.blocks_available)
      (refused "misura filesystem non rappresentabile")
  ok (record {
    total = f.blocks * f.block_size;
    used = (f.blocks - f.blocks_free) * f.block_size;
    available = f.blocks_available * f.block_size;
  })

unfoldable pub daily_requirement : ℕ → ℕ
daily_requirement expected = expected / 2 + expected % 2

-- A share of the total in basis points, in uint64; it is computed in two parts.
unfoldable pub share : ℕ → ℕ → ℕ
share total points =
    (total / 10000 * points % 2 ^ 64 + total % 10000 * points % 2 ^ 64 / 10000) % 2 ^ 64

-- The bytes that may stay used below a threshold: strictly less than its share.
unfoldable pub target : ℕ → ℕ → ℕ
unfolding share
target total threshold = let t = share total threshold in if ltb 0 t then t - 1 else t

-- MinimumReleaseBasisPoints of the total, rounded up; for a total of uint64 nothing here reaches 2 ^ 64
unfoldable pub minimum_release : ℕ → ℕ
minimum_release total =
    let tenth = total / 10000 * 1000 + total % 10000 * 1000 / 10000 in
    if total % 10000 * 1000 % 10000 == 0 then tenth else tenth + 1

-- the bytes that a selection has to free before pending purges are counted
unfoldable pub bytes_to_free : ℕ → ℕ → ℕ → ℕ → ℕ
unfolding target minimum_release
bytes_to_free total used threshold expected =
    let goal = target total threshold in
    let projected = used + expected in
    let excess = if ltb goal projected then projected - goal else 0 in
    if ltb excess (minimum_release total) then minimum_release total else excess
