-- ===== src/Providers/Store/Invariant.antt =====
-- The invariant of the breaker columns, under every operation of the control store
-- (providers/store.py, providers/breaker.py).
use silver_invention.Providers.Store.Steps.{
  here, Reach, Step, read, next, drop_cache, claim, outcome, skip_call, enable, reset,
}
use silver_invention.Providers.Store.Claims.{
  reclaim_time, claimable_late, lookup-claim, claim-claimable,
}
use silver_invention.Prelude.{
  ℕ, ◌≤◌, ◌<◌, ◌≡◌, ◌≢◌, refl, none, some, Bool, true, if◌then◌else◌, ◌==◌, arith, subst, sym,
  Bool-cases, Option-cases, some_of_ne_none, inl, inr, ==→≡, ◌⊎◌, Bool-cases, Option-cases, inl,
  inr, ==→≡, ◌⊎◌, Option, ◌∙◌, ap,
}
use silver_invention.Prelude.Dict.{Dict, lookup, update, lookup-update}
use silver_invention.Providers.Breaker.{closed, ok}
use silver_invention.Providers.Models.{ProviderRuntime, ProviderResult}
use silver_invention.Providers.Store.{
  World, Settings, coalesce, claimable, to_half_open, reset_row, written, apply_breaker,
  outcome_transition, set_enabled, runtimes, reset_breaker, claim_half_open_probe, record_outcome,
  ℤ, invalidate, record_skip, if_row-some, skip_logged,
}

-- A closed breaker has no clock and no cooldown and counts below the threshold; any other has all
-- of these, so that the claim's query can match it; no cooldown is above the cap.
pub record BreakerInv (s : Settings) (r : ProviderRuntime) : Type 0 where
  pub closed_clock : r.breaker_state ≡ closed → r.breaker_opened_at ≡ none
  pub closed_cooldown : r.breaker_state ≡ closed → r.breaker_cooldown_seconds ≡ none
  pub closed_count :
      r.breaker_state ≡ closed → r.breaker_consecutive_failures < s.policy.failure_threshold
  pub open_clock : r.breaker_state ≢ closed → r.breaker_opened_at ≢ none
  pub open_cooldown : r.breaker_state ≢ closed → r.breaker_cooldown_seconds ≢ none
  pub open_count :
      r.breaker_state ≢ closed → s.policy.failure_threshold ≤ r.breaker_consecutive_failures
  pub capped : coalesce r.breaker_cooldown_seconds 0 ≤ s.policy.max_cooldown_seconds

claim-BreakerInv :
    (s : Settings) (t : ℕ) (r : ProviderRuntime)
    → claimable s t r ≡ true
    → BreakerInv s r
    → BreakerInv s (to_half_open r)
unfolding claimable
claim-BreakerInv s t r c inv = ground arith

reset-BreakerInv :
    (s : Settings) (r : ProviderRuntime)
    → 0 < s.policy.failure_threshold
    → BreakerInv s (reset_row r)
reset-BreakerInv s r h = ground arith

outcome-BreakerInv :
    (s : Settings) (t : ℕ) (r : ProviderRuntime) (result : ProviderResult)
    → 0 < s.policy.failure_threshold
    → BreakerInv s r
    → BreakerInv s (written (outcome_transition s r result) t r)
unfolding outcome_transition apply_breaker
outcome-BreakerInv s t r result h inv = ground arith

-- Every row of the table satisfies the invariant.
pub record TableInv (s : Settings) (w : World) : Type 0 where
  pub rows : (pid : ℕ) (r : ProviderRuntime) → lookup pid w.providers ≡ some r → BreakerInv s r

same_table :
    {s : Settings} (w w' : World) → w'.providers ≡ w.providers → TableInv s w → TableInv s w'
same_table w w' e inv = record { rows = λ pid r h. inv.rows pid r (rw (← e) h) }

found-update :
    (p q : ℕ) (f : ProviderRuntime → ProviderRuntime) (d : Dict ProviderRuntime)
    (r r' : ProviderRuntime)
    → lookup q d ≡ some r
    → lookup q (update p f d) ≡ some r'
    → r' ≡ (if p == q then f r else r)
found-update p q f d r r' e h = ground (arith, lookup-update p q f d)

missing-update :
    (p q : ℕ) (f : ProviderRuntime → ProviderRuntime) (d : Dict ProviderRuntime)
    {r' : ProviderRuntime}
    → lookup q d ≡ none
    → lookup q (update p f d) ≡ some r'
    → ⊥
missing-update p q f d e h = ground (arith, lookup-update p q f d)

-- A row update that keeps the invariant of the updated row keeps that of the table.
updated :
    (s : Settings) (w : World) (p : ℕ) (f : ProviderRuntime → ProviderRuntime)
    → ((r : ProviderRuntime) → lookup p w.providers ≡ some r → BreakerInv s (f r))
    → TableInv s w
    → (q : ℕ) (r' : ProviderRuntime) → lookup q (update p f w.providers) ≡ some r'
    → BreakerInv s r'
updated s w p f keep inv q r' h = elim (Option-cases (lookup q w.providers)) [
  | inl n ↦ absurd (missing-update p q f w.providers n h)
  | inr (r, e) ↦ rw (found-update p q f w.providers r r' e h) elim (Bool-cases (p == q)) [
    | inl same ↦ rw same (keep r (rw (==→≡ p q same) e))
    | inr other ↦ rw other (inv.rows q r e)
  ]
]

set-BreakerInv :
    (s : Settings) (r : ProviderRuntime) (b : Bool)
    → BreakerInv s r
    → BreakerInv s (record r { enabled = b })
set-BreakerInv s r b inv = ground arith

-- A write of one row, by whatever keeps its invariant, or no write at all.
rewritten :
    (s : Settings) (w w' : World) (p : ℕ) (f : ProviderRuntime → ProviderRuntime)
    → (w'.providers ≡ w.providers) ⊎ (w'.providers ≡ update p f w.providers)
    → ((r : ProviderRuntime) → lookup p w.providers ≡ some r → BreakerInv s (f r))
    → TableInv s w
    → TableInv s w'
rewritten s w w' p f (inl e) keep inv = same_table w w' e inv
rewritten s w w' p f (inr e) keep inv = record {
  rows = λ q r' h. updated s w p f keep inv q r' (rw (← e) h);
}

found_claimable :
    (s : Settings) (t : ℕ) (o : Option ProviderRuntime) (r r0 : ProviderRuntime)
    → o ≡ some r
    → o ≡ some r0
    → claimable s t r ≡ true
    → claimable s t r0 ≡ true
found_claimable s t o r r0 e e0 c = cc

claim-TableInv :
    (s : Settings) (t pid : ℕ) (w : World)
    → TableInv s w
    → TableInv s (claim_half_open_probe s t pid w).1
unfolding claim_half_open_probe invalidate
claim-TableInv s t pid w inv = elim (Option-cases (lookup pid w.providers)) [
  | inl n ↦ same_table w _ (ground arith) inv
  | inr (r, e) ↦ elim (Bool-cases (claimable s t r)) [
    | inl c ↦
        rewritten s w _ pid to_half_open (inr (ground arith))
          (λ r0 e0.
            claim-BreakerInv s t r0 (found_claimable s t _ r r0 e e0 c) (inv.rows pid r0 e0))
          inv
    | inr c ↦ same_table w _ (ground arith) inv
  ]
]

found_written :
    (s : Settings) (t : ℕ) (result : ProviderResult) (o : Option ProviderRuntime)
    (r r0 : ProviderRuntime)
    → o ≡ some r
    → o ≡ some r0
    → BreakerInv s (written (outcome_transition s r0 result) t r0)
    → BreakerInv s (written (outcome_transition s r result) t r0)
found_written s t result o r r0 e e0 h =
    let same : r ≡ r0 = cc in
    subst (λ x. BreakerInv s (written (outcome_transition s x result) t r0)) (sym same) h

outcome-TableInv :
    (s : Settings) (t : ℕ) (run intel : Option ℕ) (result : ProviderResult) (cost : Option ℤ)
    (day : ℕ) (w w' : World)
    → 0 < s.policy.failure_threshold
    → record_outcome s t run intel result cost day w ≡ some w'
    → TableInv s w
    → TableInv s w'
unfolding record_outcome invalidate
outcome-TableInv s t run intel result cost day w w' h e inv =
    elim (Option-cases (lookup result.provider_id w.providers)) [
      | inl n ↦ absurd (ground arith)
      | inr (r, el) ↦
          rewritten s w w' result.provider_id (written (outcome_transition s r result) t)
            (inr (ground arith))
            (λ r0 e0.
              found_written s t result _ r r0 el e0
                (outcome-BreakerInv s t r0 result h (inv.rows result.provider_id r0 e0)))
            inv
    ]

enable-TableInv :
    (s : Settings) (pid : ℕ) (b : Bool) (actor reason : ℕ) (w : World)
    → TableInv s w
    → TableInv s (set_enabled pid b actor reason w).1
unfolding set_enabled invalidate
enable-TableInv s pid b actor reason w inv =
    rewritten s w _ pid (λ r. record r { enabled = b }) (ground arith)
      (λ r e. set-BreakerInv s r b (inv.rows pid r e)) inv

reset-TableInv :
    (s : Settings) (pid actor reason : ℕ) (w : World)
    → 0 < s.policy.failure_threshold
    → TableInv s w
    → TableInv s (reset_breaker pid actor reason w).1
unfolding reset_breaker invalidate
reset-TableInv s pid actor reason w h inv =
    rewritten s w _ pid reset_row (ground arith) (λ r e. reset-BreakerInv s r h) inv

Step-TableInv :
    {s : Settings} {w w' : World}
    → 0 < s.policy.failure_threshold
    → Step s w w'
    → TableInv s w
    → TableInv s w'
unfolding runtimes invalidate record_skip
Step-TableInv h (read t w) inv = same_table w _ (ground arith) inv
Step-TableInv h (drop_cache w) inv = same_table w _ refl inv
Step-TableInv {s} h (claim t pid w) inv = claim-TableInv s t pid w inv
Step-TableInv {s} h (outcome t run intel result cost day w w' e) inv =
    outcome-TableInv s t run intel result cost day w w' h e inv
Step-TableInv h (skip_call run intel pid reason detail w w' e) inv =
    let logged =
      if_row-some (lookup pid w.providers) (skip_logged run intel pid reason detail w) w' e in
    same_table w w' (ap (λ x. x.providers) (sym logged)) inv
Step-TableInv {s} h (enable pid b actor reason w) inv = enable-TableInv s pid b actor reason w inv
Step-TableInv {s} h (reset pid actor reason w) inv = reset-TableInv s pid actor reason w h inv

-- With a threshold above 0, every operation of any worker or operator, in any order, keeps the
-- breaker columns of every row consistent: a closed breaker has no opening time and no cooldown and
-- counts below the threshold; one that is open or half-open has both, and counts at or above it;
-- and no stored cooldown is above the cap.
pub Reach-TableInv :
    {s : Settings} {w w' : World}
    → 0 < s.policy.failure_threshold
    → TableInv s w
    → Reach s w w'
    → TableInv s w'
Reach-TableInv h inv here = inv
Reach-TableInv h inv (next r st) = Step-TableInv h st (Reach-TableInv h inv r)

module _ (s : Settings) (t : ℕ) (run intel : Option ℕ) (result : ProviderResult) (cost : Option ℤ)
    (day : ℕ) (w w' : World) (r : ProviderRuntime) where
  pub lookup-record_outcome :
      lookup result.provider_id w.providers ≡ some r
      → record_outcome s t run intel result cost day w ≡ some w'
      → lookup result.provider_id w'.providers ≡ some (written (outcome_transition s r result) t r)
  unfolding record_outcome invalidate
  lookup-record_outcome e h = ground (
    arith,
    lookup-update result.provider_id result.provider_id (written (outcome_transition s r result) t)
        w.providers,
  )

written_ok :
    (s : Settings) (t : ℕ) (result : ProviderResult) (r : ProviderRuntime)
    → result.status ≡ ok
    → written (outcome_transition s r result) t r ≡ reset_row r
unfolding outcome_transition apply_breaker
written_ok s t result r e = ground arith

claim_late_wins :
    (s : Settings) (t : ℕ) (r : ProviderRuntime)
    → BreakerInv s r
    → r.breaker_state ≢ closed
    → ((at : ℕ) → r.breaker_opened_at ≡ some at → reclaim_time s r at ≤ t)
    → claimable s t r ≡ true
claim_late_wins s t r inv st late =
    let (at, e) = some_of_ne_none r.breaker_opened_at (inv.open_clock st) in
    claimable_late s t at r e (late at e) st

-- The way back: in a table with the invariant, a claim on a provider that is not closed wins from
-- its reclaim time on, and a success recorded after it closes the breaker, clears its columns and
-- leaves no failure counted.
pub probe_recovers :
    (s : Settings) (w w' : World) (t t' : ℕ) (r : ProviderRuntime) (run intel : Option ℕ)
    (result : ProviderResult) (cost : Option ℤ) (day : ℕ)
    → TableInv s w
    → lookup result.provider_id w.providers ≡ some r
    → r.breaker_state ≢ closed
    → ((at : ℕ) → r.breaker_opened_at ≡ some at → reclaim_time s r at ≤ t)
    → result.status ≡ ok
    → record_outcome s t' run intel result cost day
        (claim_half_open_probe s t result.provider_id w).1
      ≡ some w'
    → ((claim_half_open_probe s t result.provider_id w).0 ≡ true)
      × (lookup result.provider_id w'.providers ≡ some (reset_row r))
probe_recovers s w w' t t' r run intel result cost day inv e st late eo er =
    let won = claim_late_wins s t r (inv.rows result.provider_id r e) st late in
    let taken : lookup result.provider_id
          (claim_half_open_probe s t result.provider_id w).1.providers
        ≡ some (to_half_open r) =
      rw won at (lookup-claim s t result.provider_id r w e) in
    (
      claim-claimable s t result.provider_id r w e ∙ won,
      lookup-record_outcome s t' run intel result cost day _ w' (to_half_open r) taken er
          ∙ ap some (written_ok s t' result (to_half_open r) eo),
    )
