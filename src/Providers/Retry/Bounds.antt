-- ===== src/Providers/Retry/Bounds.antt =====
-- The retries end, are counted and wait within bounds (providers/ratelimit.py).
use silver_invention.Prelude.{
  ◌||◌, ◌-◌, ap, ℕ, zero, suc, ◌+◌, ◌≤◌, ◌<◌, ◌≡◌, refl, ◌⊎◌, inl, inr, Option, some, true, false,
  not, List, [], ◌∷◌, ltb, ◌==◌, length, arith, Bool-cases, All,
}
use silver_invention.Providers.Retry.{
  parse_retry_after, Float, Reply, response, raised, RetryPolicy, Sent, float_max, float_min,
  wait_seconds, send_loop, send_with_retry,
}

-- Within the interval from 0 to the longest wait: 0 is at most it, and it is at most the longest wait.
abbrev pub Within : (fl : Float) → fl.F → fl.F → Type 0
Within fl top x = (fl.le fl.zero_f x ≡ true) × (fl.le x top ≡ true)

abbrev pub Is429 : Reply → Type 0
Is429 (response status _) = status ≡ 429
Is429 (raised _) = ⊥

Reply-cases :
    (r : Reply)
    → ((x : ℕ) × (r ≡ raised x))
      ⊎ ((status : ℕ) × (header : Option ℕ) × (r ≡ response status header))
Reply-cases (raised x) = inl (x, refl)
Reply-cases (response status header) = inr (status, header, refl)

lt_suc_cases : (i n : ℕ) → i < n + 1 → (i < n) ⊎ (i ≡ n)
lt_suc_cases i n h = grind arith

spent_all :
    (n status limit : ℕ)
    → n ≤ limit
    → status ≡ 429
    → (not (status == 429) || ltb limit (n + 1)) ≡ true
    → n ≡ limit
spent_all n status limit h e done = ground arith

module _ (fl : Float) where
  open fl use {F, lt, le, zero_f}

  clamp_bounds :
      (x top : F)
      → ((y : F) → lt y y ≡ false)
      → ((y z : F) → lt y z ≡ false → le z y ≡ true)
      → lt top zero_f ≡ false
      → Within fl top (float_min fl (float_max fl x zero_f) top)
  clamp_bounds x top irrefl total pos_max = (
    total _ zero_f (ground (arith, irrefl zero_f, irrefl top)),
    total top _ (ground (arith, irrefl zero_f, irrefl top)),
  )

  -- Every wait lies between 0 and the policy's longest wait, whatever the header, the attempt, the
  -- jitter and the random value: 0 is at most it, and it is at most the longest wait. No float is
  -- below itself, of two floats one is at most the other, so none is a NaN, and the longest wait is
  -- not below 0.
  pub wait_seconds_bounds :
      (attempt : ℕ) (retry_after : Option F) (max_wait jitter rng : F)
      → ((x : F) → lt x x ≡ false)
      → ((x y : F) → lt x y ≡ false → le y x ≡ true)
      → lt max_wait zero_f ≡ false
      → Within fl max_wait (wait_seconds fl attempt retry_after max_wait jitter rng)
  unfolding wait_seconds
  wait_seconds_bounds attempt retry_after max_wait jitter rng irrefl total pos_max =
      clamp_bounds _ max_wait irrefl total pos_max

  -- What is promised of a finished loop.
  pub record Bounded (policy : RetryPolicy fl) (send : ℕ → Reply) (r : Sent fl) : Type 0 where
    pub at_least_one : 1 ≤ r.attempts
    pub at_most : r.attempts ≤ policy.max_retries + 1
    pub last_reply : r.answer ≡ send (r.attempts - 1)
    pub retried : (i : ℕ) → i + 1 < r.attempts → Is429 (send i)
    pub gave_up : Is429 r.answer → r.attempts ≡ policy.max_retries + 1
    pub one_wait_each : length r.waits + 1 ≡ r.attempts
    pub waits_bounded : All (Within fl policy.max_wait_seconds) r.waits

  module _ (policy : RetryPolicy fl) (send : ℕ → Reply) (rng : ℕ → F)
      (irrefl : (x : F) → lt x x ≡ false) (total : (x y : F) → lt x y ≡ false → le y x ≡ true)
      (pos_max : lt policy.max_wait_seconds zero_f ≡ false) where
    -- What holds before the request numbered `n`.
    record Before (n : ℕ) (waits : List F) : Type 0 where
      in_budget : n ≤ policy.max_retries
      all_429 : (i : ℕ) → i < n → Is429 (send i)
      waited : length waits ≡ n
      bounded : All (Within fl policy.max_wait_seconds) waits

    stop_Bounded :
        (n : ℕ) (waits : List F)
        → Before n waits
        → (Is429 (send n) → n ≡ policy.max_retries)
        → Bounded policy send (record { answer = send n; attempts = n + 1; waits = waits })
    stop_Bounded n waits b spent = record {
      at_least_one = omega arith;
      at_most = omega (arith, b.in_budget);
      last_reply = let e : n ≡ n + 1 - 1 = omega arith in ap send e;
      retried = λ i h. b.all_429 i (omega arith);
      gave_up = λ h. omega (arith, spent h);
      one_wait_each = omega (arith, b.waited);
      waits_bounded = b.bounded;
    }

    more_Before :
        (n : ℕ) (waits : List F) (status : ℕ) (header : Option ℕ) (wait : F)
        → Before n waits
        → send n ≡ response status header
        → (not (status == 429) || ltb policy.max_retries (n + 1)) ≡ false
        → Within fl policy.max_wait_seconds wait
        → Before (n + 1) (wait ∷ waits)
    more_Before n waits status header wait b e more ok_wait = record {
      in_budget = ground arith;
      all_429 = λ i h. elim (lt_suc_cases i n h) [
        | inl below ↦ b.all_429 i below
        | inr same ↦ rw (same, e) (ground arith)
      ];
      waited = omega (arith, b.waited);
      bounded = (ok_wait, b.bounded);
    }

    loop_Bounded :
        (fuel n : ℕ) (waits : List F)
        → Before n waits
        → policy.max_retries + 1 ≤ fuel + n
        → (r : Sent fl) × (send_loop fl fuel policy send rng n waits ≡ some r)
          × Bounded policy send r
    unfolding send_loop
    loop_Bounded zero n waits b enough = absurd (omega (arith, b.in_budget))
    loop_Bounded (suc fuel) n waits b enough = elim (Reply-cases (send n)) [
      | inl (x, e) ↦ (
        record { answer = send n; attempts = n + 1; waits = waits },
        ground arith,
        stop_Bounded n waits b (λ h. absurd (rw e at h)),
      )
      | inr (status, header, e) ↦
          elim (Bool-cases (not (status == 429) || ltb policy.max_retries (n + 1))) [
            | inl done ↦ (
              record { answer = send n; attempts = n + 1; waits = waits },
              ground arith,
              stop_Bounded n waits b
                  (λ h. spent_all n status policy.max_retries b.in_budget (rw e at h) done),
            )
            | inr more ↦
                let wait =
                  wait_seconds fl n (parse_retry_after fl header) policy.max_wait_seconds
                    policy.jitter_fraction (rng n) in
                let kept = more_Before n waits status header wait b e more (
                  wait_seconds_bounds n (parse_retry_after fl header) policy.max_wait_seconds
                    policy.jitter_fraction (rng n) irrefl total pos_max) in
                let (r, runs, good) = loop_Bounded fuel (n + 1) (wait ∷ waits) kept (omega arith) in
                (r, ground arith, good)
          ]
    ]

    -- Where the sleeps return, the loop ends within `max_retries + 1` rounds, the fuel. It makes
    -- at least one request and at most one more than the retries allowed; its answer is the reply to
    -- the last request, every earlier reply was a 429, and a 429 is its answer only when the retries
    -- are used up; it waits once between two requests, each time for at least 0 and at most
    -- the longest wait. No float is below itself; of two floats one is at most the other, so no NaN
    -- comes up; and the longest wait is not below 0.
    pub send_with_retry_lem :
        (r : Sent fl) × (send_with_retry fl policy send rng ≡ some r) × Bounded policy send r
    unfolding send_with_retry
    send_with_retry_lem =
        loop_Bounded (policy.max_retries + 1) 0 []
          (record {
            in_budget = omega arith;
            all_429 = λ i h. absurd (omega arith);
            waited = refl;
            bounded = tt;
          })
          (omega arith)
