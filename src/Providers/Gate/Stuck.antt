-- ===== src/Providers/Gate/Stuck.antt =====
-- A probe that nobody reports: what later dispatches do with it (decide of providers/gate.py, reading
-- the rows by runtimes of providers/store.py, as search/runner.py does).
use silver_invention.Prelude.{
  ℕ, ◌-◌, ltb, ◌≡◌, ◌⊎◌, inl, inr, subst, Option-cases, Bool-cases, Option, none, some, List, [],
  ◌∷◌, arith, All,
}
use mathlib.Core.Option.{some-injective}
use silver_invention.Prelude.Dict.{Dict, lookup}
use silver_invention.Providers.Breaker.{half_open}
use silver_invention.Providers.Models.{ProviderRuntime, Decision, dispatch, skip}
use silver_invention.Providers.Store.{World, Settings, runtimes}
use silver_invention.Providers.Gate.{decide}

-- When a run is dispatched: the process's clock, the database's clock and the UTC date.
pub record Moment : Type 0 where
  pub monotonic : ℕ
  pub time : ℕ
  pub day : ℕ

-- One dispatch attempt of a run: read the rows, then decide.
pub attempt : Settings → ℕ → Moment → World → Decision × World
unfolding runtimes decide
attempt s pid m w =
    let (rows, w') = runtimes s m.monotonic w in decide s m.time m.day pid (lookup pid rows) w'

-- The decisions of the runs at these moments, one after another, in one process.
pub attempts : Settings → ℕ → List Moment → World → List Decision × World
attempts s pid [] w = ([], w)
attempts s pid (m ∷ ms) w =
    let (d, w') = attempt s pid m w in let (ds, w'') = attempts s pid ms w' in (d ∷ ds, w'')

abbrev pub IsSkip : Decision → Type 0
IsSkip (dispatch _ _ _) = ⊥
IsSkip (skip _ _ _) = Unit

abbrev pub IsHalfOpen : Option ProviderRuntime → Type 0
IsHalfOpen none = ⊥
IsHalfOpen (some r) = r.breaker_state ≡ half_open

-- The row is half-open in the table and in the cache, if there is one.
pub record Abandoned (pid : ℕ) (w : World) : Type 0 where
  pub stored : IsHalfOpen (lookup pid w.providers)
  pub seen : (rows : Dict ProviderRuntime) → w.cached ≡ some rows → IsHalfOpen (lookup pid rows)

-- The world after a read that went to the table.
abbrev refreshed : ℕ → World → World
refreshed t w = record w { cached = some w.providers; cached_at = some t }

-- A read serves the cache or the table.
runtimes-cases :
    (s : Settings) (t : ℕ) (w : World)
    → ((rows : Dict ProviderRuntime) × (w.cached ≡ some rows) × (runtimes s t w ≡ (rows, w)))
      ⊎ (runtimes s t w ≡ (w.providers, refreshed t w))
unfolding runtimes
runtimes-cases s t w = elim (Option-cases w.cached) [
  | inl e ↦ inr (ground arith)
  | inr (rows, e) ↦ elim (Option-cases w.cached_at) [
    | inl e2 ↦ inr (ground arith)
    | inr (at, e2) ↦ elim (Bool-cases (ltb (t - at) s.cache_seconds)) [
      | inl fresh ↦ inl (rows, e, ground arith)
      | inr old ↦ inr (ground arith)
    ]
  ]
]

IsHalfOpen-rows :
    (pid : ℕ) (d rows : Dict ProviderRuntime)
    → some d ≡ some rows
    → IsHalfOpen (lookup pid d)
    → IsHalfOpen (lookup pid rows)
IsHalfOpen-rows pid d rows e h = subst (λ x. IsHalfOpen (lookup pid x)) (some-injective _ _ e) h

read-Abandoned :
    (s : Settings) (pid t : ℕ) (w : World)
    → Abandoned pid w
    → IsHalfOpen (lookup pid (runtimes s t w).0) × Abandoned pid (runtimes s t w).1
read-Abandoned s pid t w a = elim (runtimes-cases s t w) [
  | inl (rows, e, read) ↦ rw read (a.seen rows e, a)
  | inr read ↦ rw read (
    a.stored,
    record { stored = a.stored; seen = λ rows e. IsHalfOpen-rows pid w.providers rows e a.stored },
  )
]

decide_half_open :
    (s : Settings) (t day pid : ℕ) (o : Option ProviderRuntime) (w : World)
    → IsHalfOpen o
    → IsSkip (decide s t day pid o w).0 × ((decide s t day pid o w).1 ≡ w)
unfolding decide
decide_half_open s t day pid none w h = absurd h
decide_half_open s t day pid (some r) w h = ground arith

attempt-Abandoned :
    (s : Settings) (pid : ℕ) (m : Moment) (w : World)
    → Abandoned pid w
    → IsSkip (attempt s pid m w).0 × Abandoned pid (attempt s pid m w).1
unfolding attempt
attempt-Abandoned s pid m w a =
    let (rows, w') = runtimes s m.monotonic w in
    let (half, kept) = read-Abandoned s pid m.monotonic w a in
    let (refused, same) = decide_half_open s m.time m.day pid (lookup pid rows) w' half in
    (refused, rw same kept)

-- Once a provider's row is half-open in the table, and in this process's cache if it holds one, any
-- sequence of dispatch attempts of this one process, at whatever times, calls it not once: every
-- decision is a skip and the row stays half-open, as long as nothing else writes in between, neither
-- the outcome of a call nor a reset by an operator nor another process. So waiting alone does not end
-- it: the claim's reclaim of an abandoned probe is not reached, since the decision returns before it.
pub half_open_stuck :
    (s : Settings) (pid : ℕ) (ms : List Moment) (w : World)
    → Abandoned pid w
    → All IsSkip (attempts s pid ms w).0 × Abandoned pid (attempts s pid ms w).1
unfolding attempts
half_open_stuck s pid [] w a = (tt, a)
half_open_stuck s pid (m ∷ ms) w a =
    let (refused, kept) = attempt-Abandoned s pid m w a in
    let (rest, last) = half_open_stuck s pid ms (attempt s pid m w).1 kept in
    ((refused, rest), last)
