-- ===== src/Search/Runner/Examples.antt =====
-- A run at concrete inputs: provider 7 is called and answers, provider 8 is disabled.
use silver_invention.Prelude.{Option, ℕ, ◌+◌, some, none, true, [], ◌∷◌, false}
use silver_invention.Prelude.Dict.{Dict}
use silver_invention.Prelude.Int.{pos}
use silver_invention.Providers.Breaker.{closed, ok}
use silver_invention.Providers.Models.{ProviderRuntime, ProviderResult}
use silver_invention.Providers.Store.{World, Settings}
use silver_invention.Calibration.Bands.{numeric}
use silver_invention.Search.Cadence.{CadencePolicy}
use silver_invention.Search.Runner.{ClaimedRun, Adapter, Clock, SearchStore}

abbrev settings : Settings
settings = record {
  cache_seconds = 30;
  policy = record {
    failure_threshold = 3;
    default_cooldown_seconds = 300;
    max_cooldown_seconds = 3600;
  };
}

abbrev cadence : CadencePolicy
cadence = record {
  standard_days = 7;
  relaxed_days = 14;
  dormant_days = 30;
  new_tier_weeks = 4;
  relaxed_after_empty = 4;
  dormant_after_empty = 8;
  priority_release_after_empty = 2;
}

abbrev row : ProviderRuntime
row = record {
  enabled = true;
  cost_per_call_usd = some (pos 2);
  daily_budget_usd = none;
  monthly_budget_usd = none;
  rate_limit_per_min = none;
  breaker_state = closed;
  breaker_opened_at = none;
  breaker_reason = none;
  breaker_consecutive_failures = 0;
  breaker_cooldown_seconds = none;
  kind = 0;
}

abbrev disabled : ProviderRuntime
disabled = record row { enabled = false }

abbrev world : World
world = record {
  providers = (7, row) ∷ (8, disabled) ∷ [];
  spend = [];
  calls = [];
  audit = [];
  cached = none;
  cached_at = none;
}

abbrev answer : ProviderResult
answer = record {
  provider_id = 7;
  status = ok;
  matches = 30 ∷ 31 ∷ [];
  raw_response = 5;
  http_status = some 200;
  latency_ms = 40;
  attempts = 1;
  error_detail = none;
}

abbrev adapter : Adapter
adapter = record { score_kind = numeric; score_version = 1; search = λ url. some answer }

abbrev adapters : Dict Adapter
adapters = (7, adapter) ∷ []

abbrev run : ClaimedRun
run = record {
  run_id = 90;
  user_ref = 1;
  seed_id = 2;
  seed_url = 3;
  discovery_eligible = true;
  providers_attempted = 7 ∷ 8 ∷ [];
}

abbrev clock : Clock
clock = record {
  monotonic = 5;
  claim_at = λ pid. 1000;
  record_at = λ pid. 1001;
  moment = record { local = 0; aware = true };
  day = 20;
}

-- A search store that counts the recorded matches.
abbrev store : SearchStore
store = record {
  St = ℕ;
  refuse_run = λ run user n. some n;
  record_infringements = λ run user provider matches n. some (2, n + 2);
  complete_run = λ run seed succeeded retier enqueue n. some n;
}
