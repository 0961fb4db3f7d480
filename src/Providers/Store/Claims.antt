-- ===== src/Providers/Store/Claims.antt =====
-- Who wins the half-open probe (claim_half_open_probe of providers/store.py).
use silver_invention.Prelude.{
  All, ℕ, ◌+◌, ◌≤◌, ◌<◌, ◌≡◌, ◌≢◌, refl, some, true, false, List, [], ◌∷◌, if◌then◌else◌, length,
  arith,
}
use silver_invention.Prelude.Dict.{lookup, lookup-update}
use silver_invention.Providers.Breaker.{closed, half_open}
use silver_invention.Providers.Models.{ProviderRuntime}
use silver_invention.Providers.Store.{
  World, Settings, coalesce, claimable, to_half_open, claim_half_open_probe, invalidate,
}

-- The cooldown of a row, and when its probe may be taken by anybody: the second disjunct of the
-- query, which measures from the moment the breaker opened.
abbrev pub cooldown_of : Settings → ProviderRuntime → ℕ
cooldown_of s r = coalesce r.breaker_cooldown_seconds s.policy.default_cooldown_seconds

abbrev pub reclaim_time : Settings → ProviderRuntime → ℕ → ℕ
reclaim_time s r at = at + (cooldown_of s r + s.policy.default_cooldown_seconds)

-- The claims of several workers, one after another, each at its own time: how many win.
pub count_wins : Settings → ℕ → List ℕ → World → ℕ
count_wins s pid [] w = 0
count_wins s pid (t ∷ times) w =
    let (won, w') = claim_half_open_probe s t pid w in
    (if won then 1 else 0) + count_wins s pid times w'

module _ (s : Settings) (t pid : ℕ) (r : ProviderRuntime) (w : World) where
  pub claim-claimable :
      lookup pid w.providers ≡ some r → (claim_half_open_probe s t pid w).0 ≡ claimable s t r
  unfolding claim_half_open_probe
  claim-claimable e = ground arith

  pub lookup-claim :
      lookup pid w.providers ≡ some r
      → lookup pid (claim_half_open_probe s t pid w).1.providers
        ≡ some (if claimable s t r then to_half_open r else r)
  unfolding claim_half_open_probe invalidate
  lookup-claim e = ground (arith, lookup-update pid pid to_half_open w.providers)

claimable_early :
    (s : Settings) (t at : ℕ) (r : ProviderRuntime)
    → r.breaker_opened_at ≡ some at
    → t < reclaim_time s r at
    → r.breaker_state ≡ half_open
    → claimable s t r ≡ false
unfolding claimable
claimable_early s t at r o h e = ground arith

pub claimable_late :
    (s : Settings) (t at : ℕ) (r : ProviderRuntime)
    → r.breaker_opened_at ≡ some at
    → reclaim_time s r at ≤ t
    → r.breaker_state ≢ closed
    → claimable s t r ≡ true
unfolding claimable
claimable_late s t at r o h e = ground arith

module _ (s : Settings) (pid at : ℕ) where
  none_win :
      (times : List ℕ) (r : ProviderRuntime) (w : World)
      → lookup pid w.providers ≡ some r
      → r.breaker_opened_at ≡ some at
      → r.breaker_state ≡ half_open
      → All (λ t. t < reclaim_time s r at) times
      → count_wins s pid times w ≡ 0
  unfolding count_wins
  none_win [] r w e o st early = refl
  none_win (t ∷ times) r w e o st early = ground (
    arith,
    claim-claimable s t pid r w,
    lookup-claim s t pid r w,
    claimable_early s t at r,
    none_win times r (claim_half_open_probe s t pid w).1,
  )

  -- Before the reclaim time (the moment of opening, the cooldown and the grace together), at most
  -- one of any number of claims on one provider wins the probe. `at` is when its breaker opened.
  pub claims_exclusive :
      (times : List ℕ) (r : ProviderRuntime) (w : World)
      → lookup pid w.providers ≡ some r
      → r.breaker_opened_at ≡ some at
      → All (λ t. t < reclaim_time s r at) times
      → count_wins s pid times w ≤ 1
  unfolding count_wins
  claims_exclusive [] r w e o early = omega arith
  claims_exclusive (t ∷ times) r w e o early = ground (
    arith,
    claim-claimable s t pid r w,
    lookup-claim s t pid r w,
    none_win times (to_half_open r) (claim_half_open_probe s t pid w).1,
    claims_exclusive times r (claim_half_open_probe s t pid w).1,
  )

  -- From the reclaim time on, every claim on a provider whose breaker is not closed wins, whatever
  -- was claimed before it: the claim does not move `breaker_opened_at`.
  pub claims_late :
      (times : List ℕ) (r : ProviderRuntime) (w : World)
      → lookup pid w.providers ≡ some r
      → r.breaker_opened_at ≡ some at
      → r.breaker_state ≢ closed
      → All (λ t. reclaim_time s r at ≤ t) times
      → count_wins s pid times w ≡ length times
  unfolding count_wins
  claims_late [] r w e o st late = refl
  claims_late (t ∷ times) r w e o st late = ground (
    arith,
    claim-claimable s t pid r w,
    lookup-claim s t pid r w,
    claimable_late s t at r,
    claims_late times (to_half_open r) (claim_half_open_probe s t pid w).1,
  )
