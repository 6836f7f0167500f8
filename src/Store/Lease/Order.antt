-- ===== src/Store/Lease/Order.antt =====
-- The order of the maintenance leases.
use onlybackup.Prelude.{
  ℕ, ◌+◌, ◌≤◌, String, ◌≡◌, true, false, nat_eq, string_eq, ok, arith, Bool-cases, inl, inr,
}
use onlybackup.Model.Types.{Instant, unix, MaintenanceLease}
use onlybackup.Store.Lease.{acquire_row, is_current, release_row}

-- Updates of the row of the lease.
pub data Moves : MaintenanceLease → MaintenanceLease → Type 0 where
  stay : {a : MaintenanceLease} → Moves a a
  acquire :
      {a b c : MaintenanceLease} (owner : String) (generation : ℕ) (now : Instant) (duration : ℕ)
      → Moves a b
      → acquire_row owner generation now duration b ≡ ok c
      → Moves a c
  release : {a b : MaintenanceLease} (l : MaintenanceLease) → Moves a b → Moves a (release_row l b)

acquire-grows :
    (owner : String) (generation : ℕ) (now : Instant) (duration : ℕ) (a b : MaintenanceLease)
    → acquire_row owner generation now duration a ≡ ok b
    → a.generation ≤ b.generation
unfolding acquire_row
acquire-grows owner generation now duration a b h = ground arith

release-same : (l a : MaintenanceLease) → (release_row l a).generation ≡ a.generation
unfolding release_row
release-same l a = ground arith

Moves-grow : {a b : MaintenanceLease} → Moves a b → a.generation ≤ b.generation
Moves-grow stay = omega arith
Moves-grow (acquire o g now d m h) = omega (arith, Moves-grow m, acquire-grows o g now d _ _ h)
Moves-grow (release l m) = omega (arith, Moves-grow m, release-same l _)

current_generation :
    (l held : MaintenanceLease) (now : Instant)
    → is_current l now held ≡ true
    → l.generation ≡ held.generation
unfolding is_current
current_generation l held now h = ground arith

-- A new lease is granted only when the one before has expired; and then no lease that was ever valid on the
-- row before is valid again, whatever acquisitions, renewals and releases follow.
pub acquire-excludes :
    (owner : String) (now duration : ℕ) (before granted later : MaintenanceLease)
    → acquire_row owner 0 now duration before ≡ ok granted
    → Moves granted later
    → (before.expires_at ≤ unix now)
      × ((old : MaintenanceLease) (t t' : Instant)
          → is_current old t before ≡ true
          → is_current old t' later ≡ false)
unfolding acquire_row
acquire-excludes owner now duration before granted later h m = (
  ground arith,
  λ old t t' was. elim (Bool-cases (is_current old t' later)) [
    | inl again ↦
        let old_one = current_generation old before t was in
        let new_one = current_generation old later t' again in
        let next : granted.generation ≡ before.generation + 1 = ground arith in
        ground (arith, old_one, new_one, next, Moves-grow m)
    | inr over ↦ over
  ],
)
