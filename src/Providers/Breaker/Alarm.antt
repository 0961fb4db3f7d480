-- ===== src/Providers/Breaker/Alarm.antt =====
-- When the breaker's alarm fires, and how long it stays open (providers/breaker.py).
use silver_invention.Prelude.{
  ℕ, zero, suc, ◌+◌, ◌*◌, ◌^◌, ◌≤◌, min, ◌≡◌, ◌≢◌, ◌↔◌, ap, ◌∙◌, Option, none, some, true, arith,
}
use silver_invention.Providers.Breaker.{
  BreakerState, closed, opened, half_open, Outcome, failure, Reason, BreakerPolicy, transition,
  next_cooldown,
}
use native.Mathlib.Nat.{pow-suc}

module _ (p : BreakerPolicy) (state : BreakerState) (failures : ℕ) (cooldown : Option ℕ)
    (reason : Option Reason) where
  alarm_sound :
      (outcome : Outcome)
      → (transition p state failures cooldown outcome reason).opened ≡ true
      → (outcome ≡ failure) × (state ≢ opened) × (p.failure_threshold ≤ failures + 1)
  unfolding transition
  alarm_sound outcome h = ground arith

  alarm_complete :
      (outcome : Outcome)
      → (outcome ≡ failure) × (state ≢ opened) × (p.failure_threshold ≤ failures + 1)
      → (transition p state failures cooldown outcome reason).opened ≡ true
  unfolding transition
  alarm_complete outcome h = ground arith

  -- The transition raises the alarm (`opened`) exactly when the outcome is a failure, the breaker
  -- was not open already, and this failure brings the count of consecutive failures to the
  -- threshold or above.
  pub transition-opened_iff :
      (outcome : Outcome)
      → ((transition p state failures cooldown outcome reason).opened ≡ true)
        ↔ ((outcome ≡ failure) × (state ≢ opened) × (p.failure_threshold ≤ failures + 1))
  transition-opened_iff outcome = (alarm_sound outcome, alarm_complete outcome)

-- The cooldown after the breaker has opened and `n` probes have failed since.
pub cooldown_after : BreakerPolicy → ℕ → ℕ → Option ℕ
cooldown_after p failures zero = (transition p closed failures none failure none).cooldown_seconds
cooldown_after p failures (suc n) =
    (transition p half_open failures (cooldown_after p failures n) failure none).cooldown_seconds

next_cooldown_doubles :
    (d cap n : ℕ) → next_cooldown (some (min (d * 2 ^ n) cap)) d cap ≡ min (d * 2 ^ suc n) cap
unfolding next_cooldown
next_cooldown_doubles d cap n = grind (arith, pow-suc 2 n)

open_cooldown :
    (p : BreakerPolicy) (failures : ℕ)
    → p.failure_threshold ≤ failures + 1
    → cooldown_after p failures 0
      ≡ some (min (p.default_cooldown_seconds * 1) p.max_cooldown_seconds)
unfolding cooldown_after transition
open_cooldown p failures h = ground arith

probe_cooldown :
    (p : BreakerPolicy) (failures c : ℕ) (n : ℕ)
    → p.failure_threshold ≤ failures + 1
    → cooldown_after p failures n ≡ some c
    → cooldown_after p failures (suc n)
      ≡ some (next_cooldown (some c) p.default_cooldown_seconds p.max_cooldown_seconds)
unfolding cooldown_after transition
probe_cooldown p failures c n h e = rw (e, cooldown_after) (ground arith)

-- A breaker that opens and then fails `n` probes in a row waits for the default cooldown doubled
-- `n` times, cut off at the cap. The hypothesis is that its count of failures has reached the
-- threshold, which opens it.
pub cooldown_doubles :
    (p : BreakerPolicy) (failures n : ℕ)
    → p.failure_threshold ≤ failures + 1
    → cooldown_after p failures n
      ≡ some (min (p.default_cooldown_seconds * 2 ^ n) p.max_cooldown_seconds)
cooldown_doubles p failures zero h = open_cooldown p failures h
cooldown_doubles p failures (suc n) h =
    probe_cooldown p failures _ n h (cooldown_doubles p failures n h)
    ∙ ap some (next_cooldown_doubles p.default_cooldown_seconds p.max_cooldown_seconds n)
