-- ===== src/Calibration/Bands/RollUp.antt =====
-- When several attestations may leave the review band (roll_up of calibration/bands.py).
use silver_invention.Prelude.{
  zero, ap, map, subst, sym, ℕ, ◌≤◌, ◌≡◌, ◌≢◌, ◌↔◌, inl, inr, refl, true, List, [], ◌∷◌,
  if◌then◌else◌, ◌==◌, ltb, arith, Sum-cases, replicate,
}
use silver_invention.Calibration.Bands.{
  Band, review, StoredBand, known, unknown, band_order, roll_up, known_bands, lowest, highest,
  roll_up_known, length, suc,
}

-- All attestations agree on one known band.
abbrev pub AllAre : Band → List StoredBand → Type 0
AllAre band [] = Unit
AllAre band (b ∷ bands) = (b ≡ known band) × AllAre band bands

lowest-le : (b : Band) (bands : List Band) → band_order (lowest b bands) ≤ band_order b
unfolding lowest
lowest-le b [] = omega arith
lowest-le b (c ∷ bands) = ground (arith, lowest-le b bands, lowest-le c bands)

highest-le : (b : Band) (bands : List Band) → band_order b ≤ band_order (highest b bands)
unfolding highest
highest-le b [] = omega arith
highest-le b (c ∷ bands) = ground (arith, highest-le b bands, highest-le c bands)

lowest_bound :
    (b c : Band) (bands : List Band)
    → band_order (lowest (if ltb (band_order c) (band_order b) then c else b) bands) ≤ band_order c
lowest_bound b c bands =
    ground (arith, lowest-le (if ltb (band_order c) (band_order b) then c else b) bands)

highest_bound :
    (b c : Band) (bands : List Band)
    → band_order c ≤ band_order (highest (if ltb (band_order b) (band_order c) then c else b) bands)
highest_bound b c bands =
    ground (arith, highest-le (if ltb (band_order b) (band_order c) then c else b) bands)

-- The extremes of a list whose lowest and highest lie between two bounds.
abbrev AllBetween : Band → Band → List Band → Type 0
AllBetween low high [] = Unit
AllBetween low high (b ∷ bands) =
    (band_order low ≤ band_order b) × (band_order b ≤ band_order high) × AllBetween low high bands

lowest_all :
    (b : Band) (bands : List Band) (low : Band)
    → lowest b bands ≡ low
    → (high : Band) → (c : Band) → highest c bands ≡ high
    → AllBetween low high bands
unfolding lowest highest
lowest_all b [] low e high c f = tt
lowest_all b (d ∷ bands) low e high c f = (
  subst (λ x. band_order x ≤ band_order d) e (lowest_bound b d bands),
  subst (λ x. band_order d ≤ band_order x) f (highest_bound c d bands),
  lowest_all (if ltb (band_order d) (band_order b) then d else b) bands low e high
      (if ltb (band_order c) (band_order d) then d else c) f,
)

between_all :
    (band : Band) (bands : List Band) → AllBetween band band bands → AllAre band (map known bands)
between_all band [] h = tt
between_all band (b ∷ bands) (lo, hi, rest) = (ground arith, between_all band bands rest)

known_bands-map :
    (bands : List StoredBand) (ks : List Band) → known_bands bands ≡ inr ks → bands ≡ map known ks
unfolding known_bands
known_bands-map [] ks h = ground arith
known_bands-map (unknown b ∷ bands) ks h = absurd (ground arith)
known_bands-map (known b ∷ bands) ks h = elim (Sum-cases (known_bands bands)) [
  | inl (x, e) ↦ absurd (ground arith)
  | inr (bs, e) ↦ rw (known_bands-map bands bs e) (ground arith)
]

map-known_bands : (ks : List Band) → known_bands (map known ks) ≡ inr ks
unfolding known_bands
map-known_bands [] = refl
map-known_bands (b ∷ ks) = rw (map-known_bands ks)

all_known :
    (band : Band) (bands : List StoredBand)
    → AllAre band bands
    → known_bands bands ≡ inr (replicate (length bands) band)
unfolding known_bands
all_known band [] h = refl
all_known band (b ∷ bands) (e, h) = rw (e, all_known band bands h)

lowest-replicate : (n : ℕ) (b : Band) → lowest b (replicate n b) ≡ b
unfolding lowest
lowest-replicate zero b = refl
lowest-replicate (suc n) b = ground (arith, lowest-replicate n b)

highest-replicate : (n : ℕ) (b : Band) → highest b (replicate n b) ≡ b
unfolding highest
highest-replicate zero b = refl
highest-replicate (suc n) b = ground (arith, highest-replicate n b)

order_injective : (a b : Band) → (band_order a == band_order b) ≡ true → a ≡ b
order_injective a b h = ground arith

unanimous_known :
    (b band : Band) (bands : List Band)
    → (roll_up_known (b ∷ bands)).0 ≡ band
    → band ≢ review
    → (lowest b bands ≡ band) × (highest b bands ≡ band)
unfolding roll_up_known
unanimous_known b band bands e h =
    ground (arith, order_injective (lowest b bands) (highest b bands))

between_eq :
    (b band : Band) → band_order band ≤ band_order b → band_order b ≤ band_order band → b ≡ band
between_eq b band lo hi = ground arith

sound_known :
    (band : Band) (ks : List Band)
    → band ≢ review
    → (roll_up_known ks).0 ≡ band
    → AllAre band (map known ks)
sound_known band [] h e = tt
sound_known band (b ∷ ks) h e =
    let (lo, hi) = unanimous_known b band ks e h in
    (
      ap known (
          between_eq b band (subst (λ x. band_order x ≤ band_order b) lo (lowest-le b ks))
            (subst (λ x. band_order b ≤ band_order x) hi (highest-le b ks))),
      between_all band ks (lowest_all b ks band lo band b hi),
    )

roll_up_sound :
    (band : Band) (bands : List StoredBand)
    → band ≢ review
    → (roll_up bands).0 ≡ band
    → (bands ≢ []) × AllAre band bands
unfolding roll_up
roll_up_sound band [] h e = absurd (ground arith)
roll_up_sound band (b ∷ bands) h e = elim (Sum-cases (known_bands (b ∷ bands))) [
  | inl (x, ek) ↦ absurd (ground arith)
  | inr (ks, ek) ↦ (
    λ z. cc,
    subst (AllAre band) (sym (known_bands-map (b ∷ bands) ks ek))
        (sound_known band ks h (let f : (roll_up_known ks).0 ≡ band = ground arith in f)),
  )
]

roll_up_complete :
    (band : Band) (bands : List StoredBand)
    → (bands ≢ []) × AllAre band bands
    → (roll_up bands).0 ≡ band
unfolding roll_up roll_up_known
roll_up_complete band [] (ne, all) = absurd (ne refl)
roll_up_complete band (b ∷ bands) (ne, all) =
    rw (all_known band (b ∷ bands) all, roll_up)
      (ground (arith, lowest-replicate (length bands) band, highest-replicate (length bands) band))

-- Several bands roll up to drop, or to auto-confirm, exactly when there is at least one and every one
-- of them is that band: any disagreement, an unknown band, or none at all give review.
pub roll_up_iff :
    (band : Band) (bands : List StoredBand)
    → band ≢ review
    → ((roll_up bands).0 ≡ band) ↔ ((bands ≢ []) × AllAre band bands)
roll_up_iff band bands h = (roll_up_sound band bands h, roll_up_complete band bands)
