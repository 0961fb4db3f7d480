-- ===== src/Providers/Breaker.antt =====
-- The circuit-breaker state machine (imageshield/providers/breaker.py).
use silver_invention.Prelude.{
  ℕ, ◌+◌, ◌*◌, min, Option, none, some, Bool, true, false, if◌then◌else◌, ltb,
}
pub mod Alarm
pub mod History

pub data BreakerState : Type 0 where
  closed opened half_open : BreakerState

-- A `provider_calls.status`; `other` is a status that this code has not been taught about.
pub data CallStatus : Type 0 where
  ok error timeout rate_limited provider_disabled breaker_open budget_exceeded : CallStatus
  other : ℕ → CallStatus

pub data Outcome : Type 0 where
  success failure neutral : Outcome

-- `breaker_reason`: the text that `_breaker_reason` builds from a status and an HTTP status, the
-- constant of an inconclusive probe, or any other text (numbered).
pub data Reason : Type 0 where
  call_failed : CallStatus → Option ℕ → Reason
  probe_inconclusive : Reason
  text : ℕ → Reason

-- `Literal["now", "clear", "keep"]`
pub data OpenedAt : Type 0 where
  now clear keep : OpenedAt

pub record BreakerTransition : Type 0 where
  pub changed : Bool
  pub state : BreakerState
  pub consecutive_failures : ℕ
  pub cooldown_seconds : Option ℕ
  pub reason : Option Reason
  pub opened_at : OpenedAt
  pub opened : Bool

-- The three thresholds, which the store takes from the configuration.
pub record BreakerPolicy : Type 0 where
  pub failure_threshold : ℕ
  pub default_cooldown_seconds : ℕ
  pub max_cooldown_seconds : ℕ

unfoldable pub classify : CallStatus → Outcome
classify ok = success
classify error = failure
classify timeout = failure
classify _ = neutral

unfoldable pub next_cooldown : Option ℕ → ℕ → ℕ → ℕ
next_cooldown none default cap = min default cap
next_cooldown (some current) default cap = min (current * 2) cap

-- `reason or "half-open probe was inconclusive"`
abbrev pub or_inconclusive : Option Reason → Reason
or_inconclusive none = probe_inconclusive
or_inconclusive (some r) = r

-- What a failure does where `failures` counts it.
on_failure : BreakerPolicy → BreakerState → ℕ → Option ℕ → Option Reason → BreakerTransition
unfolding next_cooldown
on_failure p opened failures cooldown reason = record {
  changed = true;
  state = opened;
  consecutive_failures = failures;
  cooldown_seconds = cooldown;
  reason = reason;
  opened_at = keep;
  opened = false;
}
on_failure p state failures cooldown reason =
    if ltb failures p.failure_threshold
    then record {
      changed = true;
      state = state;
      consecutive_failures = failures;
      cooldown_seconds = cooldown;
      reason = reason;
      opened_at = keep;
      opened = false;
    }
    else record {
      changed = true;
      state = opened;
      consecutive_failures = failures;
      cooldown_seconds =
          some (next_cooldown cooldown p.default_cooldown_seconds p.max_cooldown_seconds);
      reason = reason;
      opened_at = now;
      opened = true;
    }

on_neutral : BreakerState → ℕ → Option ℕ → Option Reason → BreakerTransition
on_neutral half_open failures cooldown reason = record {
  changed = true;
  state = opened;
  consecutive_failures = failures;
  cooldown_seconds = cooldown;
  reason = some (or_inconclusive reason);
  opened_at = now;
  opened = false;
}
on_neutral state failures cooldown reason = record {
  changed = false;
  state = state;
  consecutive_failures = failures;
  cooldown_seconds = cooldown;
  reason = reason;
  opened_at = keep;
  opened = false;
}

unfoldable pub transition :
    BreakerPolicy → BreakerState → ℕ → Option ℕ → Outcome → Option Reason → BreakerTransition
unfolding on_failure on_neutral
transition p state failures cooldown neutral reason = on_neutral state failures cooldown reason
transition p state failures cooldown success reason = record {
  changed = true;
  state = closed;
  consecutive_failures = 0;
  cooldown_seconds = none;
  reason = none;
  opened_at = clear;
  opened = false;
}
transition p state failures cooldown failure reason =
    on_failure p state (failures + 1) cooldown reason
