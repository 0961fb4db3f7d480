-- ===== src/Providers/Gate/Order.antt =====
-- What a decision consumes and what it promises (decide of providers/gate.py).
use silver_invention.Prelude.{refl, ℕ, ◌≡◌, ◌⊎◌, Option, none, some, Bool, true, false, arith}
use silver_invention.Prelude.Int.{ℤ, ◌+ℤ◌, ◌≤ℤ◌}
use silver_invention.Providers.Breaker.{closed, opened}
use silver_invention.Providers.Budget.{verdict}
use silver_invention.Providers.Models.{
  ProviderRuntime, SkipReason, Detail, dispatch, skip, ProviderResult,
}
use silver_invention.Providers.Store.{
  World, Settings, daily_spend, spend_or_zero, claim_half_open_probe, record_outcome, charged,
  invalidate,
}
use silver_invention.Providers.Store.Ledger.{daily_spend-record_outcome_self}
use silver_invention.Providers.Gate.{decide}

-- One more call fits: without a budget always, with one only at a known price.
abbrev pub Fits : Option ℤ → Option ℤ → ℤ → Type 0
Fits cost none spent = Unit
Fits none (some budget) spent = ⊥
Fits (some cost) (some budget) spent = spent +ℤ cost ≤ℤ budget

claim_lost :
    (s : Settings) (t pid : ℕ) (w : World)
    → (claim_half_open_probe s t pid w).0 ≡ false
    → (claim_half_open_probe s t pid w).1 ≡ w
unfolding claim_half_open_probe
claim_lost s t pid w h = ground arith

verdict-Fits :
    (cost budget : Option ℤ) (spent : ℤ)
    → (verdict cost budget spent).allowed ≡ true
    → Fits cost budget spent
unfolding verdict
verdict-Fits cost none spent h = tt
verdict-Fits none (some budget) spent h = cc
verdict-Fits (some cost) (some budget) spent h = ground arith

some_frame :
    (s : Settings) (t day pid : ℕ) (r : ProviderRuntime) (w : World) {p : ℕ} {reason : SkipReason}
    {detail : Detail}
    → (decide s t day pid (some r) w).0 ≡ skip p reason detail
    → (decide s t day pid (some r) w).1 ≡ w
unfolding decide
some_frame s t day pid r w h = ground (arith, claim_lost s t pid w)

some_passed :
    (s : Settings) (t day pid : ℕ) (r : ProviderRuntime) (w : World) {p : ℕ} {cost : Option ℤ}
    {probe : Bool}
    → (decide s t day pid (some r) w).0 ≡ dispatch p cost probe
    → (p ≡ pid)
      × (r.enabled ≡ true)
      × Fits r.cost_per_call_usd r.daily_budget_usd (spend_or_zero (daily_spend pid day w))
      × (cost ≡ r.cost_per_call_usd)
      × (((r.breaker_state ≡ closed) × (probe ≡ false) × ((decide s t day pid (some r) w).1 ≡ w))
          ⊎ ((r.breaker_state ≡ opened)
              × (probe ≡ true)
              × ((claim_half_open_probe s t pid w).0 ≡ true)
              × ((decide s t day pid (some r) w).1 ≡ (claim_half_open_probe s t pid w).1)))
unfolding decide
some_passed s t day pid r w h = grind (
  arith,
  verdict-Fits r.cost_per_call_usd r.daily_budget_usd (spend_or_zero (daily_spend pid day w)),
)

module _ (s : Settings) (t day pid : ℕ) (w : World) {p : ℕ} where
  -- A refusal consumes nothing: whenever the decision is a skip, for whatever reason, that the
  -- provider has no row among the runtimes included, the tables and the cache are as they were, so
  -- no probe was taken and nothing was spent.
  pub skip-decide_frame :
      (o : Option ProviderRuntime) {reason : SkipReason} {detail : Detail}
      → (decide s t day pid o w).0 ≡ skip p reason detail
      → (decide s t day pid o w).1 ≡ w
  unfolding decide
  skip-decide_frame none h = refl
  skip-decide_frame (some r) h = some_frame s t day pid r w h

  -- A dispatch means that every guard passed: the provider has a row among the runtimes and is
  -- enabled in it; the call fits today's budget, which needs a known price where a budget is set;
  -- the price charged is the row's; and either the breaker was read closed, nothing changed and the
  -- call is no probe, or it was read open, this worker won the claim and the call is the probe.
  pub dispatch-decide :
      (o : Option ProviderRuntime) {cost : Option ℤ} {probe : Bool}
      → (decide s t day pid o w).0 ≡ dispatch p cost probe
      → (r : ProviderRuntime) × (o ≡ some r)
        × (p ≡ pid)
        × (r.enabled ≡ true)
        × Fits r.cost_per_call_usd r.daily_budget_usd (spend_or_zero (daily_spend pid day w))
        × (cost ≡ r.cost_per_call_usd)
        × (((r.breaker_state ≡ closed) × (probe ≡ false) × ((decide s t day pid o w).1 ≡ w))
            ⊎ ((r.breaker_state ≡ opened)
                × (probe ≡ true)
                × ((claim_half_open_probe s t pid w).0 ≡ true)
                × ((decide s t day pid o w).1 ≡ (claim_half_open_probe s t pid w).1)))
  unfolding decide
  dispatch-decide none h = absurd (ground arith)
  dispatch-decide (some r) h =
      let (same, enabled, fits, price, breaker) = some_passed s t day pid r w h in
      (r, refl, same, enabled, fits, price, breaker)

daily_spend-claim :
    (s : Settings) (t pid q day : ℕ) (w : World)
    → daily_spend q day (claim_half_open_probe s t pid w).1 ≡ daily_spend q day w
unfolding claim_half_open_probe daily_spend invalidate
daily_spend-claim s t pid q day w = ground arith

daily_spend-decide :
    (s : Settings) (t day pid : ℕ) (r : ProviderRuntime) (w : World)
    → daily_spend pid day (decide s t day pid (some r) w).1 ≡ daily_spend pid day w
unfolding decide
daily_spend-decide s t day pid r w = ground (arith, daily_spend-claim s t pid pid day w)

fits_budget :
    (cost : Option ℤ) (budget spent : ℤ)
    → Fits cost (some budget) spent
    → spent +ℤ charged cost ≤ℤ budget
fits_budget (some c) budget spent f = f
fits_budget none budget spent f = absurd f

-- The budget is a ceiling: where a daily budget is set and a decision dispatches, then after the
-- call is recorded, at the price of the decision and on the decision's day, the provider's spend of
-- that day is still at most the budget. No other write comes between the two.
pub budget_ceiling :
    (s : Settings) (t t' day : ℕ) (r : ProviderRuntime) (w w' : World) (run intel : Option ℕ)
    (result : ProviderResult) {budget : ℤ} {cost : Option ℤ} {probe : Bool}
    → r.daily_budget_usd ≡ some budget
    → (decide s t day result.provider_id (some r) w).0 ≡ dispatch result.provider_id cost probe
    → record_outcome s t' run intel result cost day (decide s t day result.provider_id (some r) w).1
      ≡ some w'
    → spend_or_zero (daily_spend result.provider_id day w') ≤ℤ budget
budget_ceiling s t t' day r w w' run intel result {budget} {cost} b d o =
    let (_, _, fits, price, _) = some_passed s t day result.provider_id r w d in
    let spent = spend_or_zero (daily_spend result.provider_id day w) in
    let fits' : spent +ℤ charged r.cost_per_call_usd ≤ℤ budget =
      fits_budget r.cost_per_call_usd budget spent (rw b at fits) in
    let raised =
      daily_spend-record_outcome_self s t' run intel result cost day
        (decide s t day result.provider_id (some r) w).1 w' o in
    rw (raised, daily_spend-decide s t day result.provider_id r w, price) fits'
