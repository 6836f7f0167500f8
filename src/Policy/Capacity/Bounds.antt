-- ===== src/Policy/Capacity/Bounds.antt =====
-- The measures of the filesystem, in uint64, as exact numbers.
use native.Mathlib.Nat.{le-div_iff_mul-le, mul-le-mul, div-lt_iff_lt-mul, mul-add-div}
use onlybackup.Prelude.{
  ℕ, ◌+◌, ◌-◌, ◌*◌, ◌/◌, ◌%◌, ◌^◌, ◌≤◌, ◌<◌, ◌≡◌, sym, ap, ◌∙◌, nat_eq, ok, arith, >>=-eq-ok,
}
use onlybackup.Policy.Capacity.{
  Filesystem, Sizes, max_uint64, used_blocks, used_basis_points, filesystem_bytes, share, target,
  minimum_release,
}

two_parts :
    (total points : ℕ)
    → total / 10000 * points + total % 10000 * points / 10000 ≡ total * points / 10000
two_parts total points =
    let q = total / 10000 in
    let r = total % 10000 in
    let whole : 10000 * q + r ≡ total = omega arith in
    let split : 10000 * (q * points) + r * points ≡ total * points =
      expand q r points ∙ ap (λ t. t * points) whole in
    sym (mul-add-div (omega arith) (q * points) (r * points)) ∙ ap (λ t. t / 10000) split
  where
    expand : (a b c : ℕ) → 10000 * (a * c) + b * c ≡ (10000 * a + b) * c
    expand a b c = omega arith

-- For a total of uint64 and at most 10000 basis points, the share is the floor of the exact product of the
-- two by 10000: no step of the computation wraps.
pub share-IsExact :
    (total points : ℕ)
    → total < 2 ^ 64
    → points ≤ 10000
    → share total points ≡ total * points / 10000
unfolding share
share-IsExact total points wide few =
    let big : total / 10000 * points ≤ total / 10000 * 10000 =
      mul_le (total / 10000) points 10000 few in
    let small : total % 10000 * points ≤ total % 10000 * 10000 =
      mul_le (total % 10000) points 10000 few in
    let exact = two_parts total points in
    let no_wrap : total / 10000 * points + total % 10000 * points / 10000 < 2 ^ 64 =
      omega (arith, big, small, wide) in
    omega (arith, exact, no_wrap, big, small, wide)
  where
    mul_le : (a b c : ℕ) → b ≤ c → a * b ≤ a * c
    mul_le a b c h = let same : a ≤ a = omega arith in mul-le-mul same h

-- The minimum release is a tenth of the total, rounded up.
pub minimum_release-IsCeiling : (total : ℕ) → minimum_release total ≡ (total + 9) / 10
unfolding minimum_release
minimum_release-IsCeiling total = ground arith

pub target-IsBelow :
    (total threshold : ℕ)
    → 0 < share total threshold
    → target total threshold < share total threshold
unfolding target
target-IsBelow total threshold h = ground arith

-- For a count of blocks of uint64: the used share is at most 10000 basis points, and is the exact one: the free blocks are at most all
-- blocks, and neither the difference nor the product wraps.
pub used_basis_points-IsBounded :
    (f : Filesystem) (n : ℕ)
    → f.blocks < 2 ^ 64
    → used_basis_points f ≡ ok n
    → (n ≤ 10000)
      × (f.blocks_free ≤ f.blocks)
      × (0 < f.blocks)
      × (0 < f.block_size)
      × (n ≡ (f.blocks - f.blocks_free) * 10000 / f.blocks)
unfolding used_basis_points
used_basis_points-IsBounded f n wide h =
    let some_blocks : 0 < f.blocks = ground arith in
    let unit : 0 < f.block_size = ground arith in
    let fewer : f.blocks_free ≤ f.blocks = ground arith in
    let short : used_blocks f ≤ max_uint64 / 10000 = ground arith in
    let value : used_blocks f * 10000 % 2 ^ 64 / f.blocks ≡ n = ground arith in
    let product : used_blocks f * 10000 % 2 ^ 64 ≡ (f.blocks - f.blocks_free) * 10000 =
      omega (arith, fewer, short, wide) in
    let exact : n ≡ (f.blocks - f.blocks_free) * 10000 / f.blocks =
      sym value ∙ ap (λ t. t / f.blocks) product in
    let below : (f.blocks - f.blocks_free) * 10000 / f.blocks < 10001 =
      (div-lt_iff_lt-mul some_blocks).1 (omega (arith, some_blocks)) in
    (omega (arith, exact, below), fewer, some_blocks, unit, exact)

pub product_fits : (m b n : ℕ) → 0 < b → n ≤ m / b → n * b ≤ m
product_fits m b n pos h = (le-div_iff_mul-le pos).0 h

split_product : (a b c : ℕ) → b ≤ a → (a - b) * c + b * c ≡ a * c
split_product a b c h =
    let whole : a - b + b ≡ a = omega (arith, h) in sym (expand (a - b) b c) ∙ ap (λ t. t * c) whole
  where
    expand : (x y z : ℕ) → (x + y) * z ≡ x * z + y * z
    expand x y z = omega arith

-- The total and the available bytes that are reported fit into uint64 and are the products of the counts of
-- blocks with the size of a block; the used bytes are at most the total, and with the free ones make it up.
pub filesystem_bytes-IsBounded :
    (f : Filesystem) (s : Sizes)
    → filesystem_bytes f ≡ ok s
    → (s.total ≤ 2 ^ 64 - 1)
      × (s.available ≤ 2 ^ 64 - 1)
      × (s.used ≤ s.total)
      × (s.total ≡ f.blocks * f.block_size)
      × (s.available ≡ f.blocks_available * f.block_size)
      × (s.used + f.blocks_free * f.block_size ≡ s.total)
unfolding filesystem_bytes
filesystem_bytes-IsBounded f s h =
    let (n, points, h1) = >>=-eq-ok (used_basis_points f) _ h in
    let unit : 0 < f.block_size = unfold used_basis_points in ground arith in
    let fewer : f.blocks_free ≤ f.blocks = unfold used_basis_points in ground arith in
    let total : s.total ≡ f.blocks * f.block_size = ground arith in
    let available : s.available ≡ f.blocks_available * f.block_size = ground arith in
    let used : s.used ≡ (f.blocks - f.blocks_free) * f.block_size = ground arith in
    let room : f.blocks ≤ max_uint64 / f.block_size = ground arith in
    let room' : f.blocks_available ≤ max_uint64 / f.block_size = ground arith in
    let parts = split_product f.blocks f.blocks_free f.block_size fewer in
    let t = product_fits max_uint64 f.block_size f.blocks unit room in
    let a = product_fits max_uint64 f.block_size f.blocks_available unit room' in
    (
      omega (arith, total, t),
      omega (arith, available, a),
      omega (arith, total, used, parts),
      total,
      available,
      omega (arith, total, used, parts),
    )
