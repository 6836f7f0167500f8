-- ===== src/Policy/Protection/Civil.antt =====
-- The protection in civil days, in a time zone where every day begins at midnight. (Where a change of the
-- clocks skips a midnight, time.Date gives another time, and the cutoff moves with it.)
use onlybackup.Prelude.{ℕ, ◌+◌, ◌-◌, ◌*◌, ◌/◌, ◌%◌, ◌≤◌, ◌<◌, ◌≡◌, ◌↔◌, false, arith}
use onlybackup.Model.Types.{Instant, hour}
use onlybackup.Catalog.Tables.{Location}
use onlybackup.Policy.Protection.{not_before_cutoff, local_midnight}

-- The first day may have begun before 1970, so that its midnight is no instant here: what needs one is said of
-- the days after it.
pub record IsRegular (loc : Location) : Type 0 where
  pub same_day : (d : ℕ) → loc.day (loc.date d 0) ≡ d
  pub midnight : (d : ℕ) → 0 < d → loc.clock (loc.date d 0) ≡ 0
  pub order : (d : ℕ) (t : Instant) → 0 < d → (loc.date d 0 ≤ t) ↔ (d ≤ loc.day t)
  pub start : (d : ℕ) → loc.date 0 0 ≤ loc.date d 0

abbrev day_length : Instant
day_length = 24 * hour

abbrev pub utc : Location
utc = record {
  day = λ t. t / day_length;
  clock = λ t. t % day_length;
  date = λ d c. d * day_length + c;
  weekday = λ d. (d + 4) % 7;
}

pub utc-IsRegular : IsRegular utc
utc-IsRegular = record {
  same_day = λ d. omega arith;
  midnight = λ d h. omega arith;
  order = λ d t pos. (λ h. omega arith, λ h. omega arith);
  start = λ d. omega arith;
}

-- Central European time, one hour before UTC in winter.
abbrev pub cet : Location
cet = record {
  day = λ t. (t + hour) / day_length;
  clock = λ t. (t + hour) % day_length;
  date = λ d c. d * day_length + c - hour;
  weekday = λ d. (d + 4) % 7;
}

pub cet-IsRegular : IsRegular cet
cet-IsRegular = record {
  same_day = λ d. omega arith;
  midnight = λ d h. omega arith;
  order = λ d t pos. (λ h. omega arith, λ h. omega arith);
  start = λ d. omega arith;
}

module _ (loc : Location) (r : IsRegular loc) where
  -- In a zone where every day begins at midnight, and with a cutoff after the first day of 1970, a time is
  -- before the cutoff exactly when its civil day lies more than `days` days before today.
  pub cutoff_iff :
      (now at : Instant) (days : ℕ)
      → days < loc.day now
      → (not_before_cutoff loc now days at ≡ false) ↔ (loc.day at + days < loc.day now)
  unfolding not_before_cutoff local_midnight
  cutoff_iff now at days late = (
    λ h. ground (
      arith,
      r.same_day (loc.day now),
      r.midnight (loc.day now) (omega (arith, late)),
      r.order (loc.day now - days) at (omega (arith, late)),
    ),
    λ h. ground (
      arith,
      r.same_day (loc.day now),
      r.midnight (loc.day now) (omega (arith, late)),
      r.order (loc.day now - days) at (omega (arith, late)),
    ),
  )
