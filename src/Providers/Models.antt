-- ===== src/Providers/Models.antt =====
-- Rows and decisions of provider cost control (imageshield/providers/models.py, and ProviderResult
-- of search/provider.py). Provider ids, run ids and payloads are only compared and stored: numbers.
use silver_invention.Prelude.{ℕ, Option, Bool, List}
use silver_invention.Prelude.Int.{ℤ}
use silver_invention.Providers.Breaker.{
  BreakerState, CallStatus, provider_disabled, breaker_open, budget_exceeded, Reason,
}
use silver_invention.Providers.Budget.{BudgetDetail}

-- A row of `providers`; its key in the table is the provider id.
pub record ProviderRuntime : Type 0 where
  pub enabled : Bool
  pub cost_per_call_usd : Option ℤ
  pub daily_budget_usd : Option ℤ
  pub monthly_budget_usd : Option ℤ
  pub rate_limit_per_min : Option ℕ
  pub breaker_state : BreakerState
  pub breaker_opened_at : Option ℕ
  pub breaker_reason : Option Reason
  pub breaker_consecutive_failures : ℕ
  pub breaker_cooldown_seconds : Option ℕ
  pub kind : ℕ

-- A row of `provider_spend`.
pub record DailySpend : Type 0 where
  pub provider_id : ℕ
  pub spend_date : ℕ
  pub call_count : ℕ
  pub cost_usd : ℤ

pub data SkipReason : Type 0 where
  disabled breaker budget : SkipReason

-- A skip reason is a call status.
abbrev pub skip_status : SkipReason → CallStatus
skip_status SkipReason.disabled = provider_disabled
skip_status SkipReason.breaker = breaker_open
skip_status SkipReason.budget = budget_exceeded

-- The texts of `Skip.detail` and of `error_detail`.
pub data Detail : Type 0 where
  no_provider_row kill_switch probe_in_flight breaker_is_open : Detail
  breaker_reason : Reason → Detail
  money : BudgetDetail → Detail
  adapter_text : ℕ → Detail

pub data Decision : Type 0 where
  dispatch : ℕ → Option ℤ → Bool → Decision
  skip : ℕ → SkipReason → Detail → Decision

pub record ProviderResult : Type 0 where
  pub provider_id : ℕ
  pub status : CallStatus
  -- the matches, numbered
  pub matches : List ℕ
  pub raw_response : ℕ
  pub http_status : Option ℕ
  pub latency_ms : ℕ
  pub attempts : ℕ
  pub error_detail : Option Detail
