-- ===== src/Recheck/Pacer.antt =====
-- Per-domain pacing (imageshield/recheck/pacer.py). Domains are only compared: numbers. Times are
-- whole ticks of the monotonic clock.
use silver_invention.Prelude.{ℕ, ◌+◌, ◌-◌, Option, none, some, List, [], ◌∷◌, if◌then◌else◌, ltb}
use silver_invention.Prelude.Dict.{Dict, lookup, insert}
pub mod Spacing

pub record DomainPacer : Type 0 where
  pub min_interval : ℕ
  pub last_at : Dict ℕ

-- How long a call at `now` waits after the domain's last release.
abbrev pub waited : ℕ → Option ℕ → ℕ → ℕ
waited interval none now = 0
waited interval (some previous) now =
    if ltb now (previous + interval) then previous + interval - now else 0

-- The first part of `wait`, up to the sleep: what a call at `now` is to sleep. It writes nothing, so
-- calls that ask before one is released all see the same previous release.
unfoldable pub ask : DomainPacer → ℕ → ℕ → ℕ
ask p domain now = waited p.min_interval (lookup domain p.last_at) now

-- The second part, after the sleep: the moment of the release is the domain's last.
unfoldable pub release : DomainPacer → ℕ → ℕ → DomainPacer
release p domain at = record p { last_at = insert domain at p.last_at }

-- A call of `wait` at `now` that runs to its end before the next starts, as the recheck loop calls it:
-- the wait taken, and the pacer after it.
unfoldable pub wait : DomainPacer → ℕ → ℕ → ℕ × DomainPacer
unfolding ask release
wait p domain now = let w = ask p domain now in (w, release p domain (now + w))
