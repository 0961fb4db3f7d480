-- ===== src/Calibration/Bands/Safety.antt =====
-- Nothing leaves the review band without a reason (band_for_attestation and roll_up of
-- calibration/bands.py).
use silver_invention.Prelude.{
  refl, subst, sym, Bool-cases, Option-cases, ℕ, ◌≡◌, ◌≢◌, ◌⊎◌, inl, inr, Option, none, some, true,
  List, [], ◌∷◌, arith,
}
use silver_invention.Prelude.Int.{ℤ}
use silver_invention.Prelude.Dict.{lookup}
use silver_invention.Calibration.Bands.{
  band_numeric, band_configured, Band, review, ScoreKind, numeric, categorical, Decimal, finite,
  not_finite, ScoreDomain, NumericBand, CalibrationConfig, PolicyEntry, in_domain, covers,
  numeric_band, band_for_attestation,
}

-- Some band of the configuration covers the score and is the band given.
abbrev pub AnyBand : (NumericBand → Type 0) → List NumericBand → Type 0
AnyBand P [] = ⊥
AnyBand P (b ∷ bands) = P b ⊎ AnyBand P bands

numeric_band_sound :
    (score : ℤ) (domain : ScoreDomain) (bands : List NumericBand) {band : Band}
    → numeric_band score bands domain ≡ some band
    → AnyBand (λ b. (covers score domain b ≡ true) × (b.band ≡ band)) bands
unfolding numeric_band
numeric_band_sound score domain [] e = cc
numeric_band_sound score domain (b ∷ bands) e = elim (Bool-cases (covers score domain b)) [
  | inl yes_here ↦ inl (yes_here, ground arith)
  | inr past_it ↦ inr (numeric_band_sound score domain bands (ground arith))
]

-- Why a decision may be something else than review.
abbrev pub Grounds :
    PolicyEntry → CalibrationConfig → ScoreKind → Option Decimal → Option ℕ → Band → Type 0
Grounds entry config numeric none category band = ⊥
Grounds entry config numeric (some (not_finite _)) category band = ⊥
Grounds entry config numeric (some (finite score)) category band =
    (entry.score_domain.min ≢ none)
    × (entry.score_domain.max ≢ none)
    × (in_domain score entry.score_domain ≡ true)
    × AnyBand (λ b. (covers score entry.score_domain b ≡ true) × (b.band ≡ band))
        config.numeric_bands
Grounds entry config categorical score none band = ⊥
Grounds entry config categorical score (some category) band =
    lookup category config.categorical_bands ≡ some band

numeric-Grounds :
    (entry : PolicyEntry) (config : CalibrationConfig) (score : ℤ) (category : Option ℕ)
    → (band_numeric entry config (some (finite score))).band ≢ review
    → Grounds entry config numeric
        (some (finite score))
        category
        (band_numeric entry config (some (finite score))).band
unfolding band_numeric
numeric-Grounds entry config score category h =
    elim (Option-cases (numeric_band score config.numeric_bands entry.score_domain)) [
      | inl none_covers ↦ absurd (ground arith)
      | inr (band, e) ↦
          let same : (band_numeric entry config (some (finite score))).band ≡ band = ground arith in
          (
            ground arith,
            ground arith,
            ground arith,
            subst
                (λ x.
                  AnyBand (λ b. (covers score entry.score_domain b ≡ true) × (b.band ≡ x))
                    config.numeric_bands)
                (sym same) (numeric_band_sound score entry.score_domain config.numeric_bands e),
          )
    ]

configured-Grounds :
    (entry : PolicyEntry) (config : CalibrationConfig) (kind : ScoreKind) (score : Option Decimal)
    (category : Option ℕ)
    → (band_configured entry config kind score category).band ≢ review
    → (entry.calibrated ≡ true)
      × (config.score_kind ≡ kind)
      × Grounds entry config kind score category
          (band_configured entry config kind score category).band
unfolding band_configured
configured-Grounds entry config numeric none category h = absurd (ground arith)
configured-Grounds entry config numeric (some (not_finite n)) category h = absurd (ground arith)
configured-Grounds entry config numeric (some (finite s)) category h =
    let same : band_configured entry config numeric (some (finite s)) category
        ≡ band_numeric entry config (some (finite s)) =
      ground arith in
    (
      ground arith,
      ground arith,
      subst (λ d. Grounds entry config numeric (some (finite s)) category d.band) (sym same)
          (numeric-Grounds entry config s category (subst (λ d. d.band ≢ review) same h)),
    )
configured-Grounds entry config categorical score none h = absurd (ground arith)
configured-Grounds entry config categorical score (some c) h =
    (ground arith, ground arith, ground arith)

entry-Grounds :
    (entry : PolicyEntry) (kind : ScoreKind) (score : Option Decimal) (category : Option ℕ)
    → (band_for_attestation (some entry) kind score category).band ≢ review
    → (config : CalibrationConfig) × (entry.config ≡ some config)
      × (entry.calibrated ≡ true)
      × (config.score_kind ≡ kind)
      × Grounds entry config kind score category
          (band_for_attestation (some entry) kind score category).band
unfolding band_for_attestation
entry-Grounds entry kind score category h = elim (Option-cases entry.config) [
  | inl missing ↦ absurd (ground arith)
  | inr (config, e) ↦
      let same : band_for_attestation (some entry) kind score category
          ≡ band_configured entry config kind score category =
        rw e in
      let (calibrated, kinds, grounds) =
        configured-Grounds entry config kind score category (subst (λ d. d.band ≢ review) same h) in
      (
        config,
        e,
        calibrated,
        kinds,
        subst (λ d. Grounds entry config kind score category d.band) (sym same) grounds,
      )
]

-- A decision that is not review rests on a provider that has a policy entry, that is calibrated and
-- that has an active configuration for the same kind of score. For a numeric provider the score is
-- finite and lies in a domain with both bounds, and a configured band with that verdict covers it;
-- for a categorical one the category is mapped to that verdict.
pub band_for_attestation-Grounds :
    (policy : Option PolicyEntry) (kind : ScoreKind) (score : Option Decimal) (category : Option ℕ)
    → (band_for_attestation policy kind score category).band ≢ review
    → (entry : PolicyEntry) × (policy ≡ some entry)
      × (config : CalibrationConfig) × (entry.config ≡ some config)
      × (entry.calibrated ≡ true)
      × (config.score_kind ≡ kind)
      × Grounds entry config kind score category
          (band_for_attestation policy kind score category).band
unfolding band_for_attestation
band_for_attestation-Grounds none kind score category h = absurd (h refl)
band_for_attestation-Grounds (some entry) kind score category h =
    let (config, active, calibrated, kinds, grounds) = entry-Grounds entry kind score category h in
    (entry, refl, config, active, calibrated, kinds, grounds)
