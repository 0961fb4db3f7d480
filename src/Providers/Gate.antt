-- ===== src/Providers/Gate.antt =====
-- The dispatch guard chain (imageshield/providers/gate.py): the checks before a provider is called.
use silver_invention.Prelude.{ℕ, Option, none, some, Bool, true, false, if◌then◌else◌}
use silver_invention.Providers.Breaker.{BreakerState, closed, opened, half_open, Reason}
use silver_invention.Providers.Budget.{BudgetVerdict, verdict}
use silver_invention.Providers.Models.{
  ProviderRuntime, SkipReason, Detail, no_provider_row, kill_switch, probe_in_flight,
  breaker_is_open, breaker_reason, money, Decision, dispatch, skip,
}
use silver_invention.Providers.Store.{
  World, Settings, daily_spend, spend_or_zero, claim_half_open_probe,
}
pub mod Order
pub mod Stuck

-- `runtime.breaker_reason or "breaker open"`
abbrev pub reason_or_open : Option Reason → Detail
reason_or_open none = breaker_is_open
reason_or_open (some r) = breaker_reason r

-- Steps 3b and 5: the durable claim where the breaker was read open, and the dispatch.
claim_and_dispatch : Settings → ℕ → ℕ → ProviderRuntime → BreakerState → World → Decision × World
claim_and_dispatch s t pid r opened w =
    let (won, w') = claim_half_open_probe s t pid w in
    if won
    then (dispatch pid r.cost_per_call_usd true, w')
    else (skip pid SkipReason.breaker (reason_or_open r.breaker_reason), w')
claim_and_dispatch s t pid r _ w = (dispatch pid r.cost_per_call_usd false, w)

-- Step 4: the budget verdict on today's spend.
money_check : ℕ → ℕ → ProviderRuntime → World → BudgetVerdict
money_check day pid r w =
    verdict r.cost_per_call_usd r.daily_budget_usd (spend_or_zero (daily_spend pid day w))

after_breaker : Settings → ℕ → ℕ → ℕ → ProviderRuntime → World → Decision × World
unfolding claim_and_dispatch money_check
after_breaker s t day pid r w =
    let v = money_check day pid r w in
    if v.allowed
    then claim_and_dispatch s t pid r r.breaker_state w
    else (skip pid SkipReason.budget (money v.detail), w)

is_half_open : BreakerState → Bool
is_half_open half_open = true
is_half_open _ = false

-- `t` is the database's time of the claim and `day` the UTC date of the decision.
unfoldable pub decide : Settings → ℕ → ℕ → ℕ → Option ProviderRuntime → World → Decision × World
unfolding after_breaker is_half_open
decide s t day pid none w = (skip pid SkipReason.disabled no_provider_row, w)
decide s t day pid (some r) w =
    if r.enabled
    then (if is_half_open r.breaker_state
        then (skip pid SkipReason.breaker probe_in_flight, w)
        else after_breaker s t day pid r w)
    else (skip pid SkipReason.disabled kill_switch, w)
