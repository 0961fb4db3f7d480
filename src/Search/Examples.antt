-- ===== src/Search/Examples.antt =====
-- Cadence at concrete inputs.
use silver_invention.Prelude.{◌≤◌, ◌<◌, ◌≡◌, true, false, List, [], ◌∷◌, arith, ◌*◌, ◌+◌}
use silver_invention.Search.Cadence.{
  new, relaxed, dormant, priority, CadencePolicy, DateTime, day_us,
}
use silver_invention.Search.Cadence.Tiers.{
  Scan, replay_scans, trailing_empty, any_found, replay_scans_lem,
}

abbrev policy : CadencePolicy
policy = record {
  standard_days = 7;
  relaxed_days = 14;
  dormant_days = 30;
  new_tier_weeks = 4;
  relaxed_after_empty = 4;
  dormant_after_empty = 8;
  priority_release_after_empty = 2;
}

-- A hit, then three empty scans; the newest first.
abbrev scans : List Scan
scans =
    record { found = false; age_days = 50 }
    ∷ record { found = false; age_days = 43 }
    ∷ record { found = false; age_days = 36 }
    ∷ record { found = true; age_days = 29 }
    ∷ []

replay_scans_lem_example :
    let (tier, counter) = replay_scans policy scans in
    (counter ≡ trailing_empty scans)
    × (tier ≡ relaxed → (4 ≤ counter) × (counter < 8))
    × (tier ≡ dormant → 8 ≤ counter)
    × (tier ≡ priority → (any_found scans ≡ true) × (counter < 2))
    × (tier ≡ new → any_found scans ≡ false)
replay_scans_lem_example = replay_scans_lem policy scans (ground arith)

-- A Sunday, half a day in.
abbrev sunday_noon : DateTime
sunday_noon = record { local = 6 * day_us + 43_200_000_000; aware = true }
