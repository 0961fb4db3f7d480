-- ===== src/Fetcher/Cache.antt =====
-- The cache of robots rules (RobotsCache of imageshield/fetcher/robots.py). Origins are only compared:
-- numbers. Times are whole ticks of the monotonic clock. The ordered dict is a table from the least
-- recently used entry to the most recently used one. What is stored is a parameter.
use silver_invention.Prelude.{
  ℕ, ◌+◌, Option, none, some, Bool, true, false, List, [], ◌∷◌, ◌++◌, if◌then◌else◌, ltb, leb,
  length,
}
use silver_invention.Prelude.Dict.{Dict, lookup, erase}
pub mod Entries
pub mod Freshness

module _ (R : Type 0) where
  pub record RobotsCache : Type 0 where
    pub ttl : ℕ
    pub max : ℕ
    pub entries : Dict (ℕ × R)

  -- `entries[origin] = entry` where it is new or stands elsewhere, and `move_to_end`.
  unfoldable pub move_to_end : ℕ → ℕ × R → Dict (ℕ × R) → Dict (ℕ × R)
  move_to_end origin entry entries = erase origin entries ++ ((origin, entry) ∷ [])

  -- The while loop: `popitem(last=False)`.
  unfoldable pub evict : ℕ → Dict (ℕ × R) → Dict (ℕ × R)
  evict max [] = []
  evict max (e ∷ entries) =
      let rest = evict max entries in if ltb max (length (e ∷ entries)) then rest else e ∷ entries

  abbrev pub get_entry : ℕ → ℕ → RobotsCache → Option (ℕ × R) → Option R × RobotsCache
  get_entry now origin cache none = (none, cache)
  get_entry now origin cache (some (stored_at, rules)) =
      if leb (stored_at + cache.ttl) now
      then (none, record cache { entries = erase origin cache.entries })
      else (
        some rules,
        record cache { entries = move_to_end origin (stored_at, rules) cache.entries },
      )

  -- `get` at time `now`.
  unfoldable pub get : ℕ → ℕ → RobotsCache → Option R × RobotsCache
  unfolding move_to_end
  get now origin cache = get_entry now origin cache (lookup origin cache.entries)

  -- `put` at time `now`.
  unfoldable pub put : ℕ → ℕ → R → RobotsCache → RobotsCache
  unfolding move_to_end evict
  put now origin rules cache = record cache {
    entries = evict cache.max (move_to_end origin (now, rules) cache.entries);
  }
