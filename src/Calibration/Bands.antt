-- ===== src/Calibration/Bands.antt =====
-- The banding rules (imageshield/calibration/bands.py) over the types of calibration/models.py. A
-- finite Decimal is an integer number of some unit that is fine enough for every number at hand: the
-- code only compares them. `units` is how many units make 1.
use silver_invention.Prelude.{
  ◌⊎◌, inl, inr, ℕ, zero, suc, ◌+◌, ◌*◌, Option, none, some, Bool, true, false, not, ◌&&◌, ◌||◌,
  List, [], ◌∷◌, ◌++◌, if◌then◌else◌, ltb, leb, ◌==◌, length,
}
use silver_invention.Prelude.Int.{ℤ, pos, negsuc, ltb_ℤ, leb_ℤ, eqb_ℤ}
use silver_invention.Prelude.Dict.{Dict, lookup}
pub mod Safety
pub mod RollUp

pub data Band : Type 0 where
  drop review auto_confirm : Band

-- A band read back from the database may be none of the three.
pub data StoredBand : Type 0 where
  known : Band → StoredBand
  unknown : ℕ → StoredBand

-- BAND_ORDER
abbrev pub band_order : Band → ℕ
band_order drop = 0
band_order review = 1
band_order auto_confirm = 2

pub data ScoreKind : Type 0 where
  numeric categorical : ScoreKind

abbrev pub same_kind : ScoreKind → ScoreKind → Bool
same_kind numeric numeric = true
same_kind categorical categorical = true
same_kind _ _ = false

-- A Decimal that a provider reports, which nobody has validated.
pub data Decimal : Type 0 where
  finite : ℤ → Decimal
  not_finite : ℕ → Decimal

pub record ScoreDomain : Type 0 where
  pub min : Option ℤ
  pub max : Option ℤ
  pub categories : Option (List ℕ)

pub record NumericBand : Type 0 where
  pub band : Band
  pub min : Option ℤ
  pub max : Option ℤ

-- Categories and versions are texts that are only compared: numbers.
pub record CalibrationConfig : Type 0 where
  pub version : ℕ
  pub score_kind : ScoreKind
  pub numeric_bands : List NumericBand
  pub categorical_bands : Dict Band

pub record PolicyEntry : Type 0 where
  pub calibrated : Bool
  pub score_domain : ScoreDomain
  pub config : Option CalibrationConfig

pub data BandReason : Type 0 where
  no_active_config provider_uncalibrated score_kind_mismatch score_not_finite score_domain_unknown
        score_out_of_domain no_band_covers_score unknown_category :
      BandReason
  numeric_reason categorical_reason : Band → BandReason

pub record BandDecision : Type 0 where
  pub band : Band
  pub reason : BandReason
  pub calibration_version : Option ℕ

abbrev pub review_for : BandReason → ℕ → BandDecision
review_for reason version = record {
  band = review;
  reason = reason;
  calibration_version = some version;
}

abbrev pub below : ℤ → Option ℤ → Bool
below score none = false
below score (some bound) = ltb_ℤ score bound

abbrev pub above : ℤ → Option ℤ → Bool
above score none = false
above score (some bound) = ltb_ℤ bound score

unfoldable pub in_domain : ℤ → ScoreDomain → Bool
in_domain score domain = not (below score domain.min) && not (above score domain.max)

-- `domain.max is None or band.max >= domain.max`
abbrev pub tops_domain : ℤ → Option ℤ → Bool
tops_domain top none = true
tops_domain top (some ceiling) = leb_ℤ ceiling top

-- Whether the loop's body passes a band over because of its `max`.
abbrev pub past : ℤ → Option ℤ → Option ℤ → Bool
past score none ceiling = false
past score (some top) ceiling =
    ltb_ℤ top score || (eqb_ℤ score top && not (tops_domain top ceiling))

unfoldable pub covers : ℤ → ScoreDomain → NumericBand → Bool
covers score domain band = not (below score band.min || past score band.max domain.max)

unfoldable pub numeric_band : ℤ → List NumericBand → ScoreDomain → Option Band
unfolding covers
numeric_band score [] domain = none
numeric_band score (band ∷ bands) domain =
    if covers score domain band then some band.band else numeric_band score bands domain

-- Rules 5 and up, on a score within a domain that has both bounds.
on_covered : Option Band → ℕ → BandDecision
on_covered none version = review_for no_band_covers_score version
on_covered (some band) version = record {
  band = band;
  reason = numeric_reason band;
  calibration_version = some version;
}

abbrev has_both : ScoreDomain → Bool
has_both domain = elim domain.min [
  | none ↦ false
  | some _ ↦ elim domain.max [ none ↦ false | some _ ↦ true ]
]

-- Rules 3 to 5 for a numeric score.
band_numeric : PolicyEntry → CalibrationConfig → Option Decimal → BandDecision
unfolding in_domain numeric_band on_covered
band_numeric entry config none = review_for score_kind_mismatch config.version
band_numeric entry config (some (not_finite _)) = review_for score_not_finite config.version
band_numeric entry config (some (finite score)) =
    if has_both entry.score_domain
    then (if in_domain score entry.score_domain
        then on_covered (numeric_band score config.numeric_bands entry.score_domain) config.version
        else review_for score_out_of_domain config.version)
    else review_for score_domain_unknown config.version

on_mapped : Option Band → ℕ → BandDecision
on_mapped none version = review_for unknown_category version
on_mapped (some band) version = record {
  band = band;
  reason = categorical_reason band;
  calibration_version = some version;
}

-- Rules 6 and 7.
band_categorical : CalibrationConfig → Option ℕ → BandDecision
unfolding on_mapped
band_categorical config none = review_for score_kind_mismatch config.version
band_categorical config (some category) =
    on_mapped (lookup category config.categorical_bands) config.version

band_by_kind :
    PolicyEntry → CalibrationConfig → ScoreKind → Option Decimal → Option ℕ → BandDecision
unfolding band_numeric band_categorical
band_by_kind entry config numeric score category = band_numeric entry config score
band_by_kind entry config categorical score category = band_categorical config category

-- Rules 2 and 3, with an active configuration.
band_configured :
    PolicyEntry → CalibrationConfig → ScoreKind → Option Decimal → Option ℕ → BandDecision
unfolding band_by_kind
band_configured entry config kind score category =
    if entry.calibrated
    then (if same_kind config.score_kind kind
        then band_by_kind entry config kind score category
        else review_for score_kind_mismatch config.version)
    else review_for provider_uncalibrated config.version

abbrev review_no_config : BandDecision
review_no_config = record { band = review; reason = no_active_config; calibration_version = none }

unfoldable pub band_for_attestation :
    Option PolicyEntry → ScoreKind → Option Decimal → Option ℕ → BandDecision
unfolding band_configured
band_for_attestation none kind score category = review_no_config
band_for_attestation (some entry) kind score category = elim entry.config [
  | none ↦ review_no_config
  | some config ↦ band_configured entry config kind score category
]

pub data RollUpReason : Type 0 where
  no_attestations : RollUpReason
  unknown_band : ℕ → RollUpReason
  disagreement : Band → Band → RollUpReason
  unanimous : Band → ℕ → RollUpReason

-- The first band that is not in BAND_ORDER, or the bands.
pub known_bands : List StoredBand → ℕ ⊎ List Band
known_bands [] = inr []
known_bands (unknown b ∷ bands) = inl b
known_bands (known b ∷ bands) = elim (known_bands bands) [ inl x ↦ inl x | inr bs ↦ inr (b ∷ bs) ]

-- `min(bands, key=…)` and `max(bands, key=…)`: the first of the extreme ones.
pub lowest : Band → List Band → Band
lowest b [] = b
lowest b (c ∷ bands) = lowest (if ltb (band_order c) (band_order b) then c else b) bands

pub highest : Band → List Band → Band
highest b [] = b
highest b (c ∷ bands) = highest (if ltb (band_order b) (band_order c) then c else b) bands

abbrev same_band : Band → Band → Bool
same_band a b = band_order a == band_order b

pub roll_up_known : List Band → Band × RollUpReason
unfolding lowest highest
roll_up_known [] = (review, no_attestations)
roll_up_known (b ∷ bands) =
    let low = lowest b bands in
    let high = highest b bands in
    if same_band low high
    then (high, unanimous high (length (b ∷ bands)))
    else (review, disagreement low high)

unfoldable pub roll_up : List StoredBand → Band × RollUpReason
unfolding known_bands roll_up_known
roll_up bands = elim (known_bands bands) [
  | inl b ↦ (review, unknown_band b)
  | inr all_known ↦ roll_up_known all_known
]
