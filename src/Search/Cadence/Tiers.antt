-- ===== src/Search/Cadence/Tiers.antt =====
-- How a seed moves between the tiers (next_tier of search/cadence.py).
use silver_invention.Prelude.{
  refl, ◌||◌, ℕ, ◌+◌, ◌≤◌, ◌<◌, ◌≡◌, Bool, true, false, List, [], ◌∷◌, arith,
}
use silver_invention.Search.Cadence.{
  ScanTier, new, relaxed, dormant, priority, CadencePolicy, next_tier,
}

-- The scans of a seed, the newest first: whether each found something, and the seed's age then.
pub record Scan : Type 0 where
  pub found : Bool
  pub age_days : ℕ

pub replay_scans : CadencePolicy → List Scan → ScanTier × ℕ
replay_scans p [] = (new, 0)
replay_scans p (scan ∷ earlier) =
    let (tier, empties) = replay_scans p earlier in
    next_tier tier empties scan.found scan.age_days p

-- The empty scans since the last that found something, or since the first.
abbrev count_empty : Bool → ℕ → ℕ
count_empty true n = 0
count_empty false n = n + 1

pub trailing_empty : List Scan → ℕ
trailing_empty [] = 0
trailing_empty (scan ∷ earlier) = count_empty scan.found (trailing_empty earlier)

-- Whether any scan of the history found something.
pub any_found : List Scan → Bool
any_found [] = false
any_found (scan ∷ earlier) = scan.found || any_found earlier

replay_scans-counter :
    (p : CadencePolicy) (scans : List Scan) → (replay_scans p scans).1 ≡ trailing_empty scans
unfolding replay_scans trailing_empty next_tier
replay_scans-counter p [] = refl
replay_scans-counter p (scan ∷ earlier) = ground (arith, replay_scans-counter p earlier)

-- What the tier says of the history: whether anything was ever found, and how long ago.
record Agrees (p : CadencePolicy) (tier : ScanTier) (n : ℕ) (found : Bool) : Type 0 where
  slow_relaxed : tier ≡ relaxed → (p.relaxed_after_empty ≤ n) × (n < p.dormant_after_empty)
  slow_dormant : tier ≡ dormant → p.dormant_after_empty ≤ n
  protected : tier ≡ priority → (found ≡ true) × (n < p.priority_release_after_empty)
  young : tier ≡ new → found ≡ false

next-Agrees :
    (p : CadencePolicy) (tier : ScanTier) (n age : ℕ) (hit found : Bool)
    → 0 < p.priority_release_after_empty
    → Agrees p tier n found
    → let (tier', n') = next_tier tier n hit age p in Agrees p tier' n' (hit || found)
unfolding next_tier
next-Agrees p tier n age true found h a = ground arith
next-Agrees p tier n age false found h a = ground arith

replay_scans-Agrees :
    (p : CadencePolicy) (scans : List Scan)
    → 0 < p.priority_release_after_empty
    → Agrees p (replay_scans p scans).0 (replay_scans p scans).1 (any_found scans)
unfolding replay_scans any_found
replay_scans-Agrees p [] h = ground arith
replay_scans-Agrees p (scan ∷ earlier) h =
    next-Agrees p (replay_scans p earlier).0 (replay_scans p earlier).1 scan.age_days scan.found
      (any_found earlier) h (replay_scans-Agrees p earlier h)

-- After any history of scans that counted as evidence, with a release threshold above 0: the stored
-- counter is the number of empty scans since the last that found something; a seed is relaxed only
-- from the relaxed threshold and below the dormant one, and dormant only from the dormant threshold;
-- it is on priority only if some scan found something and fewer empty scans than the release
-- threshold came since; and it is new only if no scan found anything.
pub replay_scans_lem :
    (p : CadencePolicy) (scans : List Scan)
    → 0 < p.priority_release_after_empty
    → let (tier, counter) = replay_scans p scans in
      (counter ≡ trailing_empty scans)
      × (tier ≡ relaxed → (p.relaxed_after_empty ≤ counter) × (counter < p.dormant_after_empty))
      × (tier ≡ dormant → p.dormant_after_empty ≤ counter)
      × (tier ≡ priority → (any_found scans ≡ true) × (counter < p.priority_release_after_empty))
      × (tier ≡ new → any_found scans ≡ false)
replay_scans_lem p scans h =
    let a = replay_scans-Agrees p scans h in
    (replay_scans-counter p scans, a.slow_relaxed, a.slow_dormant, a.protected, a.young)
