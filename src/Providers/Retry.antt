-- ===== src/Providers/Retry.antt =====
-- Bounded, jittered back-off for 429 answers (imageshield/providers/ratelimit.py). Python's floats
-- are a parameter: their order and the operations that the code calls.
use silver_invention.Prelude.{
  ℕ, zero, suc, ◌+◌, ◌≤◌, ◌<◌, ◌≡◌, Option, none, some, Bool, true, false, not, ◌||◌, List, [], ◌∷◌,
  if◌then◌else◌, ltb, ◌==◌,
}
pub mod Bounds
mod Examples

pub record Float : Type 1 where
  pub F : Type 0
  pub lt : F → F → Bool
  -- `a <= b`, which is false of a NaN; the code compares with `<` alone
  pub le : F → F → Bool
  pub zero_f : F
  pub add : F → F → F
  pub sub : F → F → F
  pub mul : F → F → F
  pub two : F
  -- `1.0 * (2 ** attempt)`
  pub fallback : ℕ → F
  -- `float(header.strip())`, `none` where it raises
  pub parse : ℕ → Option F

-- `send()` returned a response, or raised.
pub data Reply : Type 0 where
  response : ℕ → Option ℕ → Reply
  raised : ℕ → Reply

module _ (fl : Float) where
  open fl use {F, lt, zero_f, add, sub, mul, two, fallback, parse}

  pub record RetryPolicy : Type 0 where
    pub max_retries : ℕ
    pub max_wait_seconds : F
    pub jitter_fraction : F

  -- `max(a, b)` and `min(a, b)` keep the first of two that are not ordered.
  abbrev pub float_max : F → F → F
  float_max a b = if lt a b then b else a

  abbrev pub float_min : F → F → F
  float_min a b = if lt b a then b else a

  -- A header is numbered; a number that is not a float is not parseable.
  unfoldable pub parse_retry_after : Option ℕ → Option F
  parse_retry_after none = none
  parse_retry_after (some header) = elim (parse header) [
    | none ↦ none
    | some value ↦ if lt value zero_f then none else some value
  ]

  -- `rng` is the value that the call of `rng()` returns.
  unfoldable pub wait_seconds : ℕ → Option F → F → F → F → F
  wait_seconds attempt retry_after max_wait jitter rng =
      let base : F = elim retry_after [ none ↦ fallback attempt | some r ↦ r ] in
      let capped = float_min (float_max base zero_f) max_wait in
      let spread = mul capped jitter in
      let jittered = add (sub capped spread) (mul (mul two spread) rng) in
      float_min (float_max jittered zero_f) max_wait

  -- What the loop did: its answer, the requests made and the waits slept, the last first.
  pub record Sent : Type 0 where
    pub answer : Reply
    pub attempts : ℕ
    pub waits : List F

  -- The `while True` loop on fuel. The replies of the provider and the random values are streams,
  -- read at the number of requests made so far.
  pub send_loop : ℕ → RetryPolicy → (ℕ → Reply) → (ℕ → F) → ℕ → List F → Option Sent
  unfolding wait_seconds parse_retry_after
  send_loop zero policy send rng attempts waits = none
  send_loop (suc fuel) policy send rng attempts waits =
      let stop : Option Sent =
        some (record { answer = send attempts; attempts = attempts + 1; waits = waits }) in
      elim (send attempts) [
        | raised e ↦ stop
        | response status header ↦
            let rest = send_loop fuel policy send rng (attempts + 1) (
              wait_seconds attempts (parse_retry_after header) policy.max_wait_seconds
                policy.jitter_fraction (rng attempts)
              ∷ waits) in
            if not (status == 429) || ltb policy.max_retries (attempts + 1) then stop else rest
      ]

  -- One request for each retry and one before them, and a last round of fuel.
  unfoldable pub send_with_retry : RetryPolicy → (ℕ → Reply) → (ℕ → F) → Option Sent
  unfolding send_loop
  send_with_retry policy send rng = send_loop (policy.max_retries + 1) policy send rng 0 []
