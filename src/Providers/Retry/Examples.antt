-- ===== src/Providers/Retry/Examples.antt =====
-- Retries at concrete inputs, with whole seconds for floats.
use silver_invention.Prelude.{
  ℕ, ◌+◌, ◌*◌, ◌-◌, ◌^◌, ◌≡◌, refl, none, some, ltb, arith, false, if◌then◌else◌, leb, true,
}
use silver_invention.Providers.Retry.{Float, Reply, response, RetryPolicy, Sent, send_with_retry}
use silver_invention.Providers.Retry.Bounds.{Bounded, send_with_retry_lem}

abbrev seconds : Float
seconds = record {
  F = ℕ;
  lt = ltb;
  le = leb;
  zero_f = 0;
  add = λ a b. a + b;
  sub = λ a b. a - b;
  mul = λ a b. a * b;
  two = 2;
  fallback = λ n. 2 ^ n;
  parse = λ header. some header;
}

abbrev patience : RetryPolicy seconds
patience = record { max_retries = 3; max_wait_seconds = 30; jitter_fraction = 1 }

-- Two answers of 429 with a `retry-after` of 5, then successes.
abbrev busy_twice : ℕ → Reply
busy_twice n = if ltb n 2 then response 429 (some 5) else response 200 none

ltb_irrefl : (x : ℕ) → ltb x x ≡ false
ltb_irrefl x = ground arith

leb_total : (x y : ℕ) → ltb x y ≡ false → leb y x ≡ true
leb_total x y h = ground arith

send_with_retry_lem_example :
    (r : Sent seconds) × (send_with_retry seconds patience busy_twice (λ n. 1) ≡ some r)
    × Bounded seconds patience busy_twice r
send_with_retry_lem_example =
    send_with_retry_lem seconds patience busy_twice (λ n. 1) ltb_irrefl leb_total refl
