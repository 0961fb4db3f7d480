-- ===== src/Providers/Breaker/History.antt =====
-- The breaker against its history: what the stored state says of the outcomes so far
-- (providers/breaker.py).
use silver_invention.Prelude.{
  ℕ, suc, ◌≤◌, ◌<◌, ◌≡◌, ◌≢◌, ◌↔◌, Option, none, List, [], ◌∷◌, if◌then◌else◌, arith,
}
use silver_invention.Providers.Breaker.{
  BreakerState, closed, opened, half_open, Outcome, success, failure, neutral, BreakerPolicy,
  transition,
}

-- The columns that the transition reads.
pub record Breaker : Type 0 where
  pub state : BreakerState
  pub failures : ℕ
  pub cooldown : Option ℕ

-- One recorded outcome on the stored columns.
pub feed : BreakerPolicy → Breaker → Outcome → Breaker
unfolding transition
feed p b outcome =
    let t = transition p b.state b.failures b.cooldown outcome none in
    if t.changed
    then record {
      state = t.state;
      failures = t.consecutive_failures;
      cooldown = t.cooldown_seconds;
    }
    else b

-- A new row, then the outcomes of a history, the newest first.
pub replay_outcomes : BreakerPolicy → List Outcome → Breaker
replay_outcomes p [] = record { state = closed; failures = 0; cooldown = none }
replay_outcomes p (outcome ∷ earlier) = feed p (replay_outcomes p earlier) outcome

-- The failures since the last success; neutral outcomes neither count nor break the row.
pub trailing_failures : List Outcome → ℕ
trailing_failures [] = 0
trailing_failures (success ∷ earlier) = 0
trailing_failures (failure ∷ earlier) = suc (trailing_failures earlier)
trailing_failures (neutral ∷ earlier) = trailing_failures earlier

record Agrees (p : BreakerPolicy) (b : Breaker) (n : ℕ) : Type 0 where
  counted : b.failures ≡ n
  settled : b.state ≢ half_open
  tripped : b.state ≡ opened → p.failure_threshold ≤ n
  quiet : b.state ≡ closed → n < p.failure_threshold

feed-Agrees :
    (p : BreakerPolicy) (b : Breaker) (outcome : Outcome) (earlier : List Outcome)
    → 0 < p.failure_threshold
    → Agrees p b (trailing_failures earlier)
    → Agrees p (feed p b outcome) (trailing_failures (outcome ∷ earlier))
unfolding feed trailing_failures
feed-Agrees p b success earlier pos_t a = ground arith
feed-Agrees p b failure earlier pos_t a = ground arith
feed-Agrees p b neutral earlier pos_t a = ground arith

replay_outcomes-Agrees :
    (p : BreakerPolicy) (history : List Outcome)
    → 0 < p.failure_threshold
    → Agrees p (replay_outcomes p history) (trailing_failures history)
unfolding replay_outcomes
replay_outcomes-Agrees p [] h = unfold trailing_failures in ground arith
replay_outcomes-Agrees p (o ∷ earlier) h =
    feed-Agrees p _ o earlier h (replay_outcomes-Agrees p earlier h)

-- Without probes, and with a threshold above 0, the stored columns are what the history says: the
-- counter is the number of failures since the last success, neutral outcomes left out, and the
-- breaker is open exactly when that number has reached the threshold, and closed otherwise.
pub replay_outcomes_lem :
    (p : BreakerPolicy) (history : List Outcome)
    → 0 < p.failure_threshold
    → ((replay_outcomes p history).failures ≡ trailing_failures history)
      × (((replay_outcomes p history).state ≡ opened)
          ↔ (p.failure_threshold ≤ trailing_failures history))
      × (((replay_outcomes p history).state ≡ closed)
          ↔ (trailing_failures history < p.failure_threshold))
replay_outcomes_lem p history h = ground (arith, replay_outcomes-Agrees p history h)
