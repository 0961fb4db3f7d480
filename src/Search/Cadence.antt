-- ===== src/Search/Cadence.antt =====
-- Adaptive scan cadence (imageshield/search/cadence.py). A datetime is its local time in microseconds
-- since 0001-01-01T00:00, a Monday, and whether it carries a timezone; the year 9999 is not modelled
-- as an end.
use silver_invention.Prelude.{
  ℕ, ◌+◌, ◌-◌, ◌*◌, ◌/◌, ◌%◌, Option, none, some, Bool, true, false, if◌then◌else◌, ltb, leb, ◌==◌,
}
pub mod Tiers
pub mod Sundays

pub data ScanTier : Type 0 where
  new standard relaxed dormant priority : ScanTier

pub record CadencePolicy : Type 0 where
  pub standard_days : ℕ
  pub relaxed_days : ℕ
  pub dormant_days : ℕ
  pub new_tier_weeks : ℕ
  pub relaxed_after_empty : ℕ
  pub dormant_after_empty : ℕ
  pub priority_release_after_empty : ℕ

pub record DateTime : Type 0 where
  pub local : ℕ
  pub aware : Bool

pub record CadenceUpdate : Type 0 where
  pub scan_tier : ScanTier
  pub consecutive_empty_scans : ℕ
  pub next_scan_after : DateTime
  pub tier_next_scan_after : DateTime

unfoldable pub interval_days : ScanTier → CadencePolicy → ℕ
interval_days relaxed p = p.relaxed_days
interval_days dormant p = p.dormant_days
interval_days _ p = p.standard_days

unfoldable pub demotion_for : ℕ → CadencePolicy → ScanTier
demotion_for empties p =
    if leb p.dormant_after_empty empties
    then dormant
    else if leb p.relaxed_after_empty empties
    then relaxed
    else standard

-- The tier after an empty scan that brings the counter to `empties`.
after_empty : ScanTier → ℕ → ℕ → CadencePolicy → ScanTier
unfolding demotion_for
after_empty new empties age p =
    if ltb age (p.new_tier_weeks * 7) then new else demotion_for empties p
after_empty priority empties age p =
    if ltb empties p.priority_release_after_empty then priority else standard
after_empty _ empties age p = demotion_for empties p

unfoldable pub next_tier : ScanTier → ℕ → Bool → ℕ → CadencePolicy → ScanTier × ℕ
unfolding after_empty
next_tier current empties true age p = (priority, 0)
next_tier current empties false age p = (after_empty current (empties + 1) age p, empties + 1)

unfoldable pub should_retier : ℕ → Bool
should_retier providers_succeeded = ltb 0 providers_succeeded

abbrev pub day_us : ℕ
day_us = 86_400_000_000

-- `date()` as a day number, and `weekday()`: Monday is 0.
abbrev pub date : DateTime → ℕ
date d = d.local / day_us

abbrev pub weekday : DateTime → ℕ
weekday d = date d % 7

abbrev pub add_days : DateTime → ℕ → DateTime
add_days d n = record d { local = d.local + n * day_us }

abbrev pub sunday : ℕ
sunday = 6

-- `(_SUNDAY - now.weekday()) % 7 or 7`
abbrev pub or_seven : ℕ → ℕ
or_seven n = if n == 0 then 7 else n

pub days_ahead : DateTime → ℕ
days_ahead now = or_seven ((sunday - weekday now) % 7)

-- `none` is the ValueError of a naive datetime.
unfoldable pub next_sunday : DateTime → Option DateTime
unfolding days_ahead
next_sunday now =
    if now.aware
    then some (record { local = date (add_days now (days_ahead now)) * day_us; aware = true })
    else none

unfoldable pub update_for :
    ScanTier → ℕ → Bool → ℕ → DateTime → CadencePolicy → Option CadenceUpdate
update_for current empties found age now p =
    let (tier, counter) = next_tier current empties found age p in
    elim (next_sunday now) [
      | none ↦ none
      | some next ↦ some (record {
        scan_tier = tier;
        consecutive_empty_scans = counter;
        next_scan_after = next;
        tier_next_scan_after = add_days now (interval_days tier p);
      })
    ]
