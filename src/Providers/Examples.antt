-- ===== src/Providers/Examples.antt =====
-- Provider cost control at concrete inputs.
use silver_invention.Providers.Budget.{verdict}
use silver_invention.Prelude.Dict.{lookup, update}
use silver_invention.Prelude.{
  ℕ, ◌+◌, ◌≤◌, ◌<◌, ◌≡◌, ◌≢◌, ◌↔◌, ◌⊎◌, refl, subst, Option, none, some, Bool, true, false, List,
  [], ◌∷◌, arith, All,
}
use silver_invention.Prelude.Int.{ℤ, pos, ◌+ℤ◌, ◌≤ℤ◌}
use silver_invention.Providers.Breaker.{
  BreakerPolicy, closed, opened, ok, Outcome, failure, neutral, success,
}
use silver_invention.Providers.Models.{ProviderRuntime, ProviderResult}
use silver_invention.Providers.Store.{
  World, Settings, daily_spend, spend_or_zero, claim_half_open_probe, record_outcome, to_half_open,
  outcome_call, invalidate, apply_breaker, claimable, outcome_transition,
}
use silver_invention.Providers.Gate.{decide}
use silver_invention.Providers.Gate.Order.{dispatch-decide, skip-decide_frame, budget_ceiling, Fits}
use silver_invention.Providers.Store.Claims.{claims_exclusive, claims_late, count_wins}
use silver_invention.Providers.Store.Invariant.{
  BreakerInv, TableInv, Reach-TableInv, probe_recovers,
}
use silver_invention.Providers.Store.Ledger.{Balanced, Reach-Balanced, no_calls-Balanced}
use silver_invention.Providers.Store.Steps.{Reach, here, next, claim, outcome}
use silver_invention.Providers.Gate.Stuck.{half_open_stuck, Abandoned, IsSkip, attempts, Moment}
use silver_invention.Providers.Breaker.History.{
  replay_outcomes, replay_outcomes_lem, trailing_failures,
}

abbrev policy : BreakerPolicy
policy = record {
  failure_threshold = 3;
  default_cooldown_seconds = 300;
  max_cooldown_seconds = 3600;
}

abbrev settings : Settings
settings = record { cache_seconds = 30; policy = policy }

-- A provider at 2 a call, with a budget of 10 a day.
abbrev healthy : ProviderRuntime
healthy = record {
  enabled = true;
  cost_per_call_usd = some (pos 2);
  daily_budget_usd = some (pos 10);
  monthly_budget_usd = none;
  rate_limit_per_min = none;
  breaker_state = closed;
  breaker_opened_at = none;
  breaker_reason = none;
  breaker_consecutive_failures = 0;
  breaker_cooldown_seconds = none;
  kind = 0;
}

-- The same provider after three failures, at time 1000.
abbrev tripped : ProviderRuntime
tripped = record healthy {
  breaker_state = opened;
  breaker_opened_at = some 1000;
  breaker_consecutive_failures = 3;
  breaker_cooldown_seconds = some 300;
}

-- The provider 7, alone in the table, with 8 spent on day 20.
abbrev world_of : ProviderRuntime → World
world_of r = record {
  providers = (7, r) ∷ [];
  spend = record { provider_id = 7; spend_date = 20; call_count = 4; cost_usd = pos 8 } ∷ [];
  calls = [];
  audit = [];
  cached = none;
  cached_at = none;
}

abbrev success_of : ProviderResult
success_of = record {
  provider_id = 7;
  status = ok;
  matches = [];
  raw_response = 0;
  http_status = some 200;
  latency_ms = 40;
  attempts = 1;
  error_detail = none;
}

-- Before the reclaim time 1600 one of three claims wins.
claims_exclusive_example : count_wins settings 7 (1300 ∷ 1301 ∷ 1302 ∷ []) (world_of tripped) ≤ 1
claims_exclusive_example =
    claims_exclusive settings 7 1000 (1300 ∷ 1301 ∷ 1302 ∷ []) tripped (world_of tripped) refl refl
      (ground arith, (ground arith, (ground arith, tt)))

-- From then on all of them do.
claims_late_example : count_wins settings 7 (1600 ∷ 1600 ∷ 1601 ∷ []) (world_of tripped) ≡ 3
claims_late_example =
    claims_late settings 7 1000 (1600 ∷ 1600 ∷ 1601 ∷ []) tripped (world_of tripped) refl refl
      (ground arith) (ground arith, (ground arith, (ground arith, tt)))

dispatch-decide_example :
    (r : ProviderRuntime) × (some healthy ≡ some r)
    × ◌≡◌ {A = ℕ} 7 7
    × (r.enabled ≡ true)
    × Fits r.cost_per_call_usd r.daily_budget_usd
        (spend_or_zero (daily_spend 7 20 (world_of healthy)))
    × (some (pos 2) ≡ r.cost_per_call_usd)
    × (((r.breaker_state ≡ closed)
          × (false ≡ false)
          × ((decide settings 1300 20 7 (some healthy) (world_of healthy)).1 ≡ world_of healthy))
        ⊎ ((r.breaker_state ≡ opened)
            × (false ≡ true)
            × ((claim_half_open_probe settings 1300 7 (world_of healthy)).0 ≡ true)
            × ((decide settings 1300 20 7 (some healthy) (world_of healthy)).1
                ≡ (claim_half_open_probe settings 1300 7 (world_of healthy)).1)))
unfolding decide verdict ◌+ℤ◌ spend_or_zero daily_spend
dispatch-decide_example = dispatch-decide settings 1300 20 7 (world_of healthy) (some healthy) refl

abbrev spent_out : ProviderRuntime
spent_out = record tripped { cost_per_call_usd = some (pos 3) }

skip-decide_frame_example :
    (decide settings 1300 20 7 (some spent_out) (world_of spent_out)).1 ≡ world_of spent_out
unfolding decide silver_invention.Providers.Budget.verdict silver_invention.Prelude.Int.◌+ℤ◌
    spend_or_zero daily_spend
skip-decide_frame_example =
    skip-decide_frame settings 1300 20 7 (world_of spent_out) (some spent_out) refl

-- The world after a call of the healthy provider, and after the probe of the tripped one.
abbrev after_call : World
after_call = record {
  providers = (7, healthy) ∷ [];
  spend = record { provider_id = 7; spend_date = 20; call_count = 5; cost_usd = pos 10 } ∷ [];
  calls = outcome_call none none success_of (some (pos 2)) ∷ [];
  audit = [];
  cached = none;
  cached_at = none;
}

budget_ceiling_example : spend_or_zero (daily_spend 7 20 after_call) ≤ℤ pos 10
unfolding decide record_outcome verdict ◌+ℤ◌ spend_or_zero daily_spend outcome_transition invalidate
    update apply_breaker
budget_ceiling_example =
    budget_ceiling settings 1000 1001 20 healthy (world_of healthy) after_call none none success_of
      refl refl refl

tripped-BreakerInv : BreakerInv settings tripped
tripped-BreakerInv = record {
  closed_clock = λ e. ground arith;
  closed_cooldown = λ e. ground arith;
  closed_count = λ e. ground arith;
  open_clock = λ e h. ground arith;
  open_cooldown = λ e h. ground arith;
  open_count = λ e. ground arith;
  capped = ground arith;
}

only_row : (x r : ProviderRuntime) (pid : ℕ) → lookup pid (world_of x).providers ≡ some r → x ≡ r
only_row x r pid e = ground arith

tripped-TableInv : TableInv settings (world_of tripped)
tripped-TableInv = record {
  rows = λ pid r e. subst (BreakerInv settings) (only_row tripped r pid e) tripped-BreakerInv;
}

-- A claim, then the outcome of its call.
abbrev claimed : World
claimed = record (world_of tripped) { providers = (7, to_half_open tripped) ∷ [] }

probe_story : Reach settings (world_of tripped) after_call
unfolding record_outcome claim_half_open_probe outcome_transition invalidate update ◌+ℤ◌
    apply_breaker claimable
probe_story =
    next (next here (claim 1300 7 (world_of tripped)))
      (outcome 1301 none none success_of (some (pos 2)) 20 claimed after_call refl)

Reach-TableInv_example : TableInv settings after_call
Reach-TableInv_example = Reach-TableInv (ground arith) tripped-TableInv probe_story

probe_recovers_example :
    ((claim_half_open_probe settings 1600 7 (world_of tripped)).0 ≡ true)
    × (lookup 7 after_call.providers ≡ some healthy)
unfolding record_outcome claim_half_open_probe claimable invalidate update outcome_transition
    apply_breaker ◌+ℤ◌
probe_recovers_example =
    probe_recovers settings (world_of tripped) after_call 1600 1601 tripped none none success_of
      (some (pos 2)) 20 tripped-TableInv refl (ground arith) (λ at e. ground arith) refl refl

-- The tables before any call.
abbrev unused : World
unused = record (world_of healthy) { spend = [] }

abbrev first_call : World
first_call = record after_call {
  spend = record { provider_id = 7; spend_date = 20; call_count = 1; cost_usd = pos 2 } ∷ [];
}

unused-Balanced : Balanced unused
unused-Balanced = no_calls-Balanced unused refl refl

first_story : Reach settings unused first_call
unfolding record_outcome outcome_transition invalidate update apply_breaker
first_story = next here (outcome 1001 none none success_of (some (pos 2)) 20 unused first_call refl)

Reach-Balanced_example : Balanced first_call
Reach-Balanced_example = Reach-Balanced unused-Balanced first_story

-- A probe taken at time 1300 that nobody reported, and two later runs.
abbrev moments : List Moment
moments =
    record { monotonic = 5; time = 1900; day = 20 }
    ∷ record { monotonic = 900; time = 90_000; day = 21 }
    ∷ []

claimed-Abandoned : Abandoned 7 claimed
claimed-Abandoned = record { stored = refl; seen = λ rows e. ground arith }

half_open_stuck_example :
    All IsSkip (attempts settings 7 moments claimed).0
    × Abandoned 7 (attempts settings 7 moments claimed).1
half_open_stuck_example = half_open_stuck settings 7 moments claimed claimed-Abandoned

abbrev history : List Outcome
history = failure ∷ neutral ∷ failure ∷ failure ∷ success ∷ failure ∷ []

replay_outcomes_lem_example :
    ((replay_outcomes policy history).failures ≡ trailing_failures history)
    × (((replay_outcomes policy history).state ≡ opened) ↔ (3 ≤ trailing_failures history))
    × (((replay_outcomes policy history).state ≡ closed) ↔ (trailing_failures history < 3))
replay_outcomes_lem_example = replay_outcomes_lem policy history (ground arith)
