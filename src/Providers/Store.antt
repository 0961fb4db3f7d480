-- ===== src/Providers/Store.antt =====
-- The control store (imageshield/providers/store.py): the providers table with its breaker columns,
-- the daily spend, the log of calls, the audit log, and the process's cache of the table. The
-- database's `now()` and the process's monotonic clock are arguments, in seconds. A transaction is
-- one function: it returns the new tables, or the old ones where the code raises.
use mathlib.Core.Option.{none-ne-some, some-injective}
use silver_invention.Prelude.{
  ℕ, ◌+◌, ◌-◌, Option, none, some, Bool, true, false, ◌&&◌, List, [], ◌∷◌, if◌then◌else◌, leb, ltb,
  ◌==◌, ◌≡◌,
}
use silver_invention.Prelude.Int.{ℤ, pos, ◌+ℤ◌}
use silver_invention.Prelude.Dict.{Dict, lookup, update}
use silver_invention.Providers.Breaker.{
  BreakerState, closed, opened, half_open, CallStatus, Outcome, success, failure, neutral, Reason,
  call_failed, OpenedAt, now, clear, keep, BreakerTransition, BreakerPolicy, classify, transition,
}
use silver_invention.Providers.Models.{
  ProviderRuntime, DailySpend, SkipReason, skip_status, Detail, ProviderResult,
}
pub mod Claims
pub mod Invariant
pub mod Ledger
pub mod Steps

-- `raw_response`: the provider's own body, or what a skip writes.
pub data Raw : Type 0 where
  verbatim : ℕ → Raw
  skipped : SkipReason → Detail → Raw

-- A row of `provider_calls`.
pub record Call : Type 0 where
  pub run_id : Option ℕ
  pub provider_id : ℕ
  pub status : CallStatus
  pub http_status : Option ℕ
  pub latency_ms : Option ℕ
  pub cost_usd : Option ℤ
  pub attempt : ℕ
  pub error_detail : Option Detail
  pub raw_response : Raw
  pub intel_run_id : Option ℕ

pub data Action : Type 0 where
  provider_disabled_action provider_enabled_action breaker_reset_action : Action

-- A row of `audit_log`.
pub record Audit : Type 0 where
  pub action : Action
  pub provider_id : ℕ
  pub actor : ℕ
  pub reason : ℕ

-- The tables, new rows first, and this process's cache.
pub record World : Type 0 where
  pub providers : Dict ProviderRuntime
  pub spend : List DailySpend
  pub calls : List Call
  pub audit : List Audit
  pub cached : Option (Dict ProviderRuntime)
  pub cached_at : Option ℕ

-- The constructor's arguments.
pub record Settings : Type 0 where
  pub cache_seconds : ℕ
  pub policy : BreakerPolicy

unfoldable pub invalidate : World → World
invalidate w = record w { cached = none; cached_at = none }

-- Whether the cache serves at monotonic time `t`.
abbrev pub cache_hit : Settings → ℕ → World → Option (Dict ProviderRuntime)
cache_hit s t w = elim w.cached [
  | none ↦ none
  | some rows ↦ elim w.cached_at [
    | none ↦ none
    | some at ↦ if ltb (t - at) s.cache_seconds then some rows else none
  ]
]

unfoldable pub runtimes : Settings → ℕ → World → Dict ProviderRuntime × World
runtimes s t w = elim (cache_hit s t w) [
  | some rows ↦ (rows, w)
  | none ↦ (w.providers, record w { cached = some w.providers; cached_at = some t })
]

-- The row of `provider_spend` at a key.
unfoldable pub find_spend : ℕ → ℕ → List DailySpend → Option DailySpend
find_spend pid day [] = none
find_spend pid day (r ∷ rows) =
    if r.provider_id == pid && r.spend_date == day then some r else find_spend pid day rows

unfoldable pub daily_spend : ℕ → ℕ → World → Option DailySpend
unfolding find_spend
daily_spend pid day w = find_spend pid day w.spend

unfoldable pub spend_or_zero : Option DailySpend → ℤ
spend_or_zero none = pos 0
spend_or_zero (some r) = r.cost_usd

-- _UPSERT_SPEND_SQL
unfoldable pub upsert_spend : ℕ → ℕ → ℤ → List DailySpend → List DailySpend
upsert_spend pid day cost [] =
    record { provider_id = pid; spend_date = day; call_count = 1; cost_usd = cost } ∷ []
upsert_spend pid day cost (r ∷ rows) =
    if r.provider_id == pid && r.spend_date == day
    then record r { call_count = r.call_count + 1; cost_usd = r.cost_usd +ℤ cost } ∷ rows
    else r ∷ upsert_spend pid day cost rows

-- COALESCE(breaker_cooldown_seconds, default)
abbrev pub coalesce : Option ℕ → ℕ → ℕ
coalesce none d = d
coalesce (some c) _ = c

-- The WHERE clause of _CLAIM_HALF_OPEN_SQL on a row, at time `t`; the grace is the default cooldown.
due : BreakerState → Option ℕ → ℕ → ℕ → ℕ → Bool
due _ none cooldown grace t = false
due closed (some at) cooldown grace t = false
due opened (some at) cooldown grace t = leb (at + cooldown) t
due half_open (some at) cooldown grace t = leb (at + (cooldown + grace)) t

unfoldable pub claimable : Settings → ℕ → ProviderRuntime → Bool
unfolding due
claimable s t r =
    due r.breaker_state r.breaker_opened_at
      (coalesce r.breaker_cooldown_seconds s.policy.default_cooldown_seconds)
      s.policy.default_cooldown_seconds t

abbrev pub to_half_open : ProviderRuntime → ProviderRuntime
to_half_open r = record r { breaker_state = half_open }

unfoldable pub claim_half_open_probe : Settings → ℕ → ℕ → World → Bool × World
claim_half_open_probe s t pid w = elim (lookup pid w.providers) [
  | none ↦ (false, w)
  | some r ↦
      if claimable s t r
      then (true, invalidate (record w { providers = update pid to_half_open w.providers }))
      else (false, w)
]

-- _breaker_reason
unfoldable pub breaker_reason_of : ProviderResult → Option Reason
breaker_reason_of result = elim (classify result.status) [
  | failure ↦ some (call_failed result.status result.http_status)
  | _ ↦ none
]

abbrev opened_at_of : OpenedAt → ℕ → Option ℕ → Option ℕ
opened_at_of now t old = some t
opened_at_of clear t old = none
opened_at_of keep t old = old

-- _APPLY_BREAKER_SQL at time `t`, on one row.
unfoldable pub apply_breaker : BreakerTransition → ℕ → ProviderRuntime → ProviderRuntime
apply_breaker change t r = record r {
  breaker_state = change.state;
  breaker_consecutive_failures = change.consecutive_failures;
  breaker_cooldown_seconds = change.cooldown_seconds;
  breaker_reason = change.reason;
  breaker_opened_at = opened_at_of change.opened_at t r.breaker_opened_at;
}

-- The transition that `record_outcome` computes from the locked row.
unfoldable pub outcome_transition : Settings → ProviderRuntime → ProviderResult → BreakerTransition
unfolding classify transition breaker_reason_of
outcome_transition s r result =
    transition s.policy r.breaker_state r.breaker_consecutive_failures r.breaker_cooldown_seconds
      (classify result.status) (breaker_reason_of result)

abbrev pub charged : Option ℤ → ℤ
charged none = pos 0
charged (some c) = c

abbrev pub outcome_call : Option ℕ → Option ℕ → ProviderResult → Option ℤ → Call
outcome_call run intel_run result cost = record {
  run_id = run;
  provider_id = result.provider_id;
  status = result.status;
  http_status = result.http_status;
  latency_ms = some result.latency_ms;
  cost_usd = cost;
  attempt = result.attempts;
  error_detail = result.error_detail;
  raw_response = verbatim result.raw_response;
  intel_run_id = intel_run;
}

-- The row after `change`, written only where it changed something.
abbrev pub written : BreakerTransition → ℕ → ProviderRuntime → ProviderRuntime
written change t r = if change.changed then apply_breaker change t r else r

-- `none` is the LookupError of an unknown provider: the transaction is rolled back.
unfoldable pub record_outcome :
    Settings → ℕ → Option ℕ → Option ℕ → ProviderResult → Option ℤ → ℕ → World → Option World
unfolding upsert_spend
record_outcome s t run intel_run result cost day w = elim (lookup result.provider_id w.providers) [
  | none ↦ none
  | some r ↦
      let change = outcome_transition s r result in
      let w' : World = record w {
        calls = outcome_call run intel_run result cost ∷ w.calls;
        spend = upsert_spend result.provider_id day (charged cost) w.spend;
        providers = update result.provider_id (written change t) w.providers;
      } in
      some (if change.changed then invalidate w' else w')
]

-- The tables with one more row of the log.
abbrev pub skip_logged : Option ℕ → Option ℕ → ℕ → SkipReason → Detail → World → World
skip_logged run intel_run pid reason detail w = record w {
  calls =
      record {
        run_id = run;
        provider_id = pid;
        status = skip_status reason;
        http_status = none;
        latency_ms = none;
        cost_usd = none;
        attempt = 0;
        error_detail = some detail;
        raw_response = skipped reason detail;
        intel_run_id = intel_run;
      }
      ∷ w.calls;
}

-- The foreign key of the log on `providers`.
abbrev pub if_row : Option ProviderRuntime → World → Option World
if_row none w = none
if_row (some r) w = some w

-- A row of the log and nothing else; `none` where the INSERT raises, for a provider without a row.
unfoldable pub record_skip : Option ℕ → Option ℕ → ℕ → SkipReason → Detail → World → Option World
record_skip run intel_run pid reason detail w =
    if_row (lookup pid w.providers) (skip_logged run intel_run pid reason detail w)

pub if_row-some : (o : Option ProviderRuntime) (w w' : World) → if_row o w ≡ some w' → w ≡ w'
if_row-some none w w' e = absurd (none-ne-some w' e)
if_row-some (some r) w w' e = some-injective w w' e

-- _write_with_audit: the change and its audit row, or neither.
unfoldable pub write_with_audit : (ProviderRuntime → ProviderRuntime) → Audit → World → Bool × World
write_with_audit f entry w = elim (lookup entry.provider_id w.providers) [
  | none ↦ (false, w)
  | some r ↦ (
    true,
    invalidate
        (record w { providers = update entry.provider_id f w.providers; audit = entry ∷ w.audit }),
  )
]

unfoldable pub set_enabled : ℕ → Bool → ℕ → ℕ → World → Bool × World
unfolding write_with_audit
set_enabled pid enabled actor reason =
    write_with_audit (λ r. record r { enabled = enabled })
      (record {
        action = if enabled then provider_enabled_action else provider_disabled_action;
        provider_id = pid;
        actor = actor;
        reason = reason;
      })

-- _RESET_BREAKER_SQL on a row.
abbrev pub reset_row : ProviderRuntime → ProviderRuntime
reset_row r = record r {
  breaker_state = closed;
  breaker_consecutive_failures = 0;
  breaker_cooldown_seconds = none;
  breaker_reason = none;
  breaker_opened_at = none;
}

unfoldable pub reset_breaker : ℕ → ℕ → ℕ → World → Bool × World
unfolding write_with_audit
reset_breaker pid actor reason =
    write_with_audit reset_row
      (record { action = breaker_reset_action; provider_id = pid; actor = actor; reason = reason })
