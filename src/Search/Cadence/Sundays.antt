-- ===== src/Search/Cadence/Sundays.antt =====
-- The coming Sunday (next_sunday of search/cadence.py).
use silver_invention.Prelude.{
  refl, inl, inr, ◌⊎◌, Bool-cases, ◌-◌, ℕ, ◌+◌, ◌*◌, ◌/◌, ◌%◌, ◌≤◌, ◌<◌, ◌≡◌, none, some, true,
  false, arith,
}
use silver_invention.Search.Cadence.{
  or_seven, add_days, DateTime, day_us, date, sunday, days_ahead, next_sunday,
}

-- The days up to the coming Sunday, from the day number `x`.
ahead_bounds :
    (x : ℕ)
    → (1 ≤ or_seven ((6 - x % 7) % 7))
      × (or_seven ((6 - x % 7) % 7) ≤ 7)
      × ((x + or_seven ((6 - x % 7) % 7)) % 7 ≡ 6)
ahead_bounds x = ground arith

no_sunday_between :
    (x k day : ℕ) → k ≤ 7 → (x + k) % 7 ≡ 6 → x < day → day < x + k → day % 7 ≡ 6 → ⊥
no_sunday_between x k day h e a b c = omega arith

date-add_days : (d : DateTime) (n : ℕ) → date (add_days d n) ≡ date d + n
date-add_days d n = omega arith

date-midnight : (n : ℕ) → (n * day_us / day_us ≡ n) × (n * day_us % day_us ≡ 0)
date-midnight n = omega arith

-- What the coming Sunday is, for a day number `x` and the Sunday's day number `y`.
abbrev pub IsComing : ℕ → ℕ → Type 0
IsComing x y =
    (y % 7 ≡ sunday)
    × (x < y)
    × (y ≤ x + 7)
    × ((day : ℕ) → x < day → day < y → day % 7 ≡ sunday → ⊥)

coming : (x : ℕ) → IsComing x (x + or_seven ((6 - x % 7) % 7))
coming x =
    let (low, high, sun) = ahead_bounds x in
    (
      sun,
      omega arith,
      omega arith,
      λ day a b c. no_sunday_between x (or_seven ((6 - x % 7) % 7)) day high sun a b c,
    )

-- For a datetime that carries a timezone there is a next Sunday: it carries one too, it is at
-- midnight, and its day is a Sunday that comes after the day given and at most seven days later,
-- with no Sunday strictly between the two. For a datetime that carries none there is an error.
pub next_sunday_lem :
    (now : DateTime)
    → ((now.aware ≡ false) × (next_sunday now ≡ none))
      ⊎ ((d : DateTime) × (next_sunday now ≡ some d)
          × (d.aware ≡ true)
          × (d.local % day_us ≡ 0)
          × IsComing (date now) (date d))
unfolding next_sunday
next_sunday_lem now = elim (Bool-cases now.aware) [
  | inr naive ↦ inl (naive, rw naive)
  | inl zoned ↦
      let day = date (add_days now (days_ahead now)) in
      let (same, midnight) = date-midnight day in
      inr (
        record { local = day * day_us; aware = true },
        rw zoned,
        refl,
        midnight,
        rw (same, date-add_days now (days_ahead now)) (coming (date now)),
      )
]
