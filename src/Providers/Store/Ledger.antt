-- ===== src/Providers/Store/Ledger.antt =====
-- The spend rows against the log of calls (record_outcome and record_skip of providers/store.py).
use silver_invention.Prelude.{
  ℕ, ◌+◌, ◌≡◌, refl, Option, some, Bool, true, false, List, [], ◌∷◌, if◌then◌else◌, ◌==◌, ◌&&◌,
  arith, subst,
}
use silver_invention.Prelude.Int.{ℤ, pos, ◌+ℤ◌, int_laws}
use silver_invention.Providers.Models.{DailySpend, ProviderResult, SkipReason, Detail}
use silver_invention.Providers.Store.Steps.{
  Step, Reach, read, drop_cache, claim, outcome, skip_call, enable, reset, here, next,
}
use silver_invention.Providers.Store.{
  Raw, verbatim, skipped, Call, World, Settings, charged, upsert_spend, record_outcome, invalidate,
  daily_spend, runtimes, find_spend, record_skip, spend_or_zero, claim_half_open_probe, set_enabled,
  reset_breaker, skip_logged, if_row-some, lookup,
}

-- What the spend rows of a provider add up to: calls and cost.
pub spend_count : ℕ → List DailySpend → ℕ
spend_count pid [] = 0
spend_count pid (r ∷ rows) =
    (if r.provider_id == pid then r.call_count else 0) + spend_count pid rows

pub spend_cost : ℕ → List DailySpend → ℤ
spend_cost pid [] = pos 0
spend_cost pid (r ∷ rows) =
    (if r.provider_id == pid then r.cost_usd else pos 0) +ℤ spend_cost pid rows

-- What the log says: a call that was made counts, a skip does not.
abbrev pub is_made : Raw → Bool
is_made (verbatim _) = true
is_made (skipped _ _) = false

pub made_count : ℕ → List Call → ℕ
made_count pid [] = 0
made_count pid (c ∷ calls) =
    (if c.provider_id == pid && is_made c.raw_response then 1 else 0) + made_count pid calls

pub logged_cost : ℕ → List Call → ℤ
logged_cost pid [] = pos 0
logged_cost pid (c ∷ calls) =
    (if c.provider_id == pid then charged c.cost_usd else pos 0) +ℤ logged_cost pid calls

-- The spend rows and the log agree for every provider.
pub record Balanced (w : World) : Type 0 where
  pub counts : (pid : ℕ) → spend_count pid w.spend ≡ made_count pid w.calls
  pub costs : (pid : ℕ) → spend_cost pid w.spend ≡ logged_cost pid w.calls

-- Before any call.
pub no_calls-Balanced : (w : World) → w.spend ≡ [] → w.calls ≡ [] → Balanced w
unfolding spend_count spend_cost made_count logged_cost
no_calls-Balanced w es ec = record { counts = λ pid. ground arith; costs = λ pid. ground arith }

spend_count-upsert :
    (p day : ℕ) (cost : ℤ) (rows : List DailySpend) (pid : ℕ)
    → spend_count pid (upsert_spend p day cost rows)
      ≡ (if p == pid then 1 else 0) + spend_count pid rows
unfolding spend_count upsert_spend
spend_count-upsert p day cost [] pid = ground arith
spend_count-upsert p day cost (r ∷ rows) pid =
    ground (arith, spend_count-upsert p day cost rows pid)

+ℤ_zero : (a : ℤ) → pos 0 +ℤ a ≡ a
+ℤ_zero a = omega int_laws

+ℤ_swap : (a b c : ℤ) → a +ℤ (b +ℤ c) ≡ b +ℤ (a +ℤ c)
+ℤ_swap a b c = omega int_laws

+ℤ_move : (a b c : ℤ) → a +ℤ b +ℤ c ≡ b +ℤ (a +ℤ c)
+ℤ_move a b c = omega int_laws

spend_cost-upsert :
    (p day : ℕ) (cost : ℤ) (rows : List DailySpend) (pid : ℕ)
    → spend_cost pid (upsert_spend p day cost rows)
      ≡ (if p == pid then cost else pos 0) +ℤ spend_cost pid rows
unfolding spend_cost upsert_spend
spend_cost-upsert p day cost [] pid = ground arith
spend_cost-upsert p day cost (r ∷ rows) pid = ground (
  arith,
  spend_cost-upsert p day cost rows pid,
  +ℤ_zero (spend_cost pid rows),
  +ℤ_zero (r.cost_usd +ℤ spend_cost pid rows),
  +ℤ_zero (pos 0 +ℤ spend_cost pid rows),
  +ℤ_swap cost r.cost_usd (spend_cost pid rows),
  +ℤ_swap cost (pos 0) (spend_cost pid rows),
  +ℤ_move r.cost_usd cost (spend_cost pid rows),
)

-- A recorded outcome adds one call and its cost to both sides.
outcome-Balanced :
    (s : Settings) (t : ℕ) (run intel : Option ℕ) (result : ProviderResult) (cost : Option ℤ)
    (day : ℕ) (w w' : World)
    → Balanced w
    → record_outcome s t run intel result cost day w ≡ some w'
    → Balanced w'
unfolding record_outcome invalidate made_count logged_cost
outcome-Balanced s t run intel result cost day w w' b e = record {
  counts = λ pid.
      ground
        (arith, b.counts pid, spend_count-upsert result.provider_id day (charged cost) w.spend pid);
  costs = λ pid.
      ground
        (arith, b.costs pid, spend_cost-upsert result.provider_id day (charged cost) w.spend pid);
}

other-Balanced : (w w' : World) → w'.spend ≡ w.spend → w'.calls ≡ w.calls → Balanced w → Balanced w'
other-Balanced w w' es ec b = record {
  counts = λ pid. rw (es, ec) (b.counts pid);
  costs = λ pid. rw (es, ec) (b.costs pid);
}

skip-Balanced :
    (run intel : Option ℕ) (pid : ℕ) (reason : SkipReason) (detail : Detail) (w : World)
    → Balanced w
    → Balanced (skip_logged run intel pid reason detail w)
unfolding made_count logged_cost
skip-Balanced run intel pid reason detail w b = record {
  counts = λ q. ground (arith, b.counts q);
  costs = λ q. ground (arith, b.costs q, +ℤ_zero (logged_cost q w.calls));
}

Step-Balanced : {s : Settings} {w w' : World} → Step s w w' → Balanced w → Balanced w'
unfolding record_skip runtimes invalidate claim_half_open_probe set_enabled reset_breaker
Step-Balanced (read t w) b = other-Balanced w _ (ground arith) (ground arith) b
Step-Balanced (drop_cache w) b = other-Balanced w _ refl refl b
Step-Balanced (claim t pid w) b = other-Balanced w _ (ground arith) (ground arith) b
Step-Balanced {s} (outcome t run intel result cost day w w' e) b =
    outcome-Balanced s t run intel result cost day w w' b e
Step-Balanced (skip_call run intel pid reason detail w w' e) b =
    subst Balanced
      (if_row-some (lookup pid w.providers) (skip_logged run intel pid reason detail w) w' e)
      (skip-Balanced run intel pid reason detail w b)
Step-Balanced (enable pid enabled actor reason w) b =
    other-Balanced w _ (ground arith) (ground arith) b
Step-Balanced (reset pid actor reason w) b = other-Balanced w _ (ground arith) (ground arith) b

-- Whatever the workers and the operators do, in any order and with any arguments, the spend rows of
-- every provider go on counting exactly the logged calls that were made (a skip is none) and adding
-- up exactly their logged costs, an unknown price counting as zero.
pub Reach-Balanced : {s : Settings} {w w' : World} → Balanced w → Reach s w w' → Balanced w'
Reach-Balanced b here = b
Reach-Balanced b (next r st) = Step-Balanced st (Reach-Balanced b r)

find_spend-upsert :
    (p day : ℕ) (cost : ℤ) (rows : List DailySpend) (q d : ℕ)
    → spend_or_zero (find_spend q d (upsert_spend p day cost rows)) ≡ (
        if p == q && day == d
        then spend_or_zero (find_spend q d rows) +ℤ cost
        else spend_or_zero (find_spend q d rows))
unfolding find_spend upsert_spend spend_or_zero
find_spend-upsert p day cost [] q d = ground (arith, +ℤ_zero cost)
find_spend-upsert p day cost (r ∷ rows) q d = ground (arith, find_spend-upsert p day cost rows q d)

-- Recording an outcome raises the spend that the budget check reads, of that provider on that day,
-- by the cost of the call (zero where the price is unknown), and no other spend.
pub daily_spend-record_outcome :
    (s : Settings) (t : ℕ) (run intel : Option ℕ) (result : ProviderResult) (cost : Option ℤ)
    (day : ℕ) (w w' : World) (q d : ℕ)
    → record_outcome s t run intel result cost day w ≡ some w'
    → spend_or_zero (daily_spend q d w') ≡ (
        if result.provider_id == q && day == d
        then spend_or_zero (daily_spend q d w) +ℤ charged cost
        else spend_or_zero (daily_spend q d w))
unfolding record_outcome daily_spend invalidate
daily_spend-record_outcome s t run intel result cost day w w' q d e =
    ground (arith, find_spend-upsert result.provider_id day (charged cost) w.spend q d)

pub daily_spend-record_outcome_self :
    (s : Settings) (t : ℕ) (run intel : Option ℕ) (result : ProviderResult) (cost : Option ℤ)
    (day : ℕ) (w w' : World)
    → record_outcome s t run intel result cost day w ≡ some w'
    → spend_or_zero (daily_spend result.provider_id day w')
      ≡ spend_or_zero (daily_spend result.provider_id day w) +ℤ charged cost
daily_spend-record_outcome_self s t run intel result cost day w w' e =
    ground
      (arith, daily_spend-record_outcome s t run intel result cost day w w' result.provider_id day)
