-- ===== src/Recheck/Pacer/Spacing.antt =====
-- The gap between two requests to one domain (recheck/pacer.py).
use silver_invention.Prelude.{
  Bool-cases, inl, inr, ℕ, ◌+◌, ◌≤◌, ◌≡◌, refl, some, List, [], ◌∷◌, if◌then◌else◌, ◌==◌, arith,
}
use silver_invention.Prelude.Dict.{lookup, lookup-insert}
use silver_invention.Recheck.Pacer.{DomainPacer, wait, waited, ask, release}

-- The releases of calls that follow one another, each a domain and the time of the call.
pub releases : DomainPacer → List (ℕ × ℕ) → List (ℕ × ℕ)
releases p [] = []
releases p ((domain, now) ∷ calls) =
    let (w, p') = wait p domain now in (domain, now + w) ∷ releases p' calls

-- Every later release of the domain comes at least the interval after this one.
abbrev pub SpacedAfter : ℕ → ℕ → ℕ → List (ℕ × ℕ) → Type 0
SpacedAfter interval domain at [] = Unit
SpacedAfter interval domain at ((d, t) ∷ rest) =
    (d ≡ domain → at + interval ≤ t) × SpacedAfter interval domain at rest

abbrev pub Spaced : ℕ → List (ℕ × ℕ) → Type 0
Spaced interval [] = Unit
Spaced interval ((d, t) ∷ rest) = SpacedAfter interval d t rest × Spaced interval rest

released_at_least :
    (interval last now : ℕ) → last + interval ≤ now + waited interval (some last) now
released_at_least interval last now = ground arith

lookup-wait :
    (p : DomainPacer) (domain now d : ℕ)
    → lookup d (wait p domain now).1.last_at
      ≡ (if domain == d then some (now + (wait p domain now).0) else lookup d p.last_at)
unfolding wait ask release
lookup-wait p domain now d =
    lookup-insert domain d (now + waited p.min_interval (lookup domain p.last_at) now) p.last_at

wait_value :
    (p : DomainPacer) (domain now last : ℕ)
    → lookup domain p.last_at ≡ some last
    → last + p.min_interval ≤ now + (wait p domain now).0
unfolding wait ask release
wait_value p domain now last e = rw e (released_at_least p.min_interval last now)

min_interval-wait :
    (p : DomainPacer) (domain now : ℕ) → (wait p domain now).1.min_interval ≡ p.min_interval
unfolding wait ask release
min_interval-wait p domain now = refl

later_spaced :
    (p : DomainPacer) (domain at last : ℕ) (calls : List (ℕ × ℕ))
    → lookup domain p.last_at ≡ some last
    → at ≤ last
    → SpacedAfter p.min_interval domain at (releases p calls)
unfolding releases wait
later_spaced p domain at last [] e h = tt
later_spaced p domain at last ((d, now) ∷ calls) e h = elim (Bool-cases (d == domain)) [
  | inl same ↦
      let after = wait_value p domain now last e in
      let t = now + (wait p d now).0 in
      let found : lookup domain (wait p d now).1.last_at ≡ some t =
        ground (arith, lookup-wait p d now domain) in
      let late : at + p.min_interval ≤ t = ground arith in
      (λ s. late, later_spaced (wait p d now).1 domain at t calls found (omega arith))
  | inr other ↦
      let found : lookup domain (wait p d now).1.last_at ≡ some last =
        ground (arith, lookup-wait p d now domain) in
      (λ s. absurd (ground arith), later_spaced (wait p d now).1 domain at last calls found h)
]

-- Of calls that are made one after another, each run to its end before the next one starts, any two
-- releases of one domain lie at least the interval apart, whatever the times of the calls and whatever
-- other domains are asked between them.
pub releases-Spaced :
    (p : DomainPacer) (calls : List (ℕ × ℕ)) → Spaced p.min_interval (releases p calls)
unfolding releases wait
releases-Spaced p [] = tt
releases-Spaced p ((d, now) ∷ calls) =
    let t = now + (wait p d now).0 in
    let found : lookup d (wait p d now).1.last_at ≡ some t =
      ground (arith, lookup-wait p d now d) in
    (
      later_spaced (wait p d now).1 d t t calls found (omega arith),
      releases-Spaced (wait p d now).1 calls,
    )
