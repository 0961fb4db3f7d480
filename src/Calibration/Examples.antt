-- ===== src/Calibration/Examples.antt =====
-- Banding at concrete inputs: scores from 0 to 100, in two bands.
use silver_invention.Calibration.Validate.{validate_numeric_bands}
use silver_invention.Prelude.{◌≡◌, ◌≢◌, ◌↔◌, refl, none, some, true, List, [], ◌∷◌, arith}
use silver_invention.Prelude.Int.{pos}
use silver_invention.Calibration.Bands.{
  Band, drop, auto_confirm, known, numeric, finite, ScoreDomain, NumericBand, CalibrationConfig,
  PolicyEntry, band_for_attestation, numeric_band, roll_up, in_domain,
}
use silver_invention.Calibration.Bands.Safety.{Grounds, band_for_attestation-Grounds}
use silver_invention.Calibration.Bands.RollUp.{AllAre, roll_up_iff}
use silver_invention.Calibration.Validate.Cover.{valid_bands_cover}

abbrev domain : ScoreDomain
domain = record { min = some (pos 0); max = some (pos 100); categories = none }

abbrev bands : List NumericBand
bands =
    record { band = auto_confirm; min = some (pos 60); max = some (pos 100) }
    ∷ record { band = drop; min = some (pos 0); max = some (pos 60) }
    ∷ []

abbrev config : CalibrationConfig
config = record { version = 3; score_kind = numeric; numeric_bands = bands; categorical_bands = [] }

abbrev entry : PolicyEntry
entry = record { calibrated = true; score_domain = domain; config = some config }

band_for_attestation-Grounds_example :
    (e : PolicyEntry) × (some entry ≡ some e)
    × (c : CalibrationConfig) × (e.config ≡ some c)
    × (e.calibrated ≡ true)
    × (c.score_kind ≡ numeric)
    × Grounds e c numeric
        (some (finite (pos 100)))
        none
        (band_for_attestation (some entry) numeric (some (finite (pos 100))) none).band
unfolding band_for_attestation
band_for_attestation-Grounds_example =
    band_for_attestation-Grounds (some entry) numeric (some (finite (pos 100))) none
      (λ e. ground arith)

valid_bands_cover_example : (band : Band) × (numeric_band (pos 60) bands domain ≡ some band)
unfolding numeric_band validate_numeric_bands in_domain
valid_bands_cover_example =
    valid_bands_cover 1 bands domain (pos 0) (pos 100) (pos 60) refl refl refl refl (ground arith)
      (ground arith)

roll_up_iff_example :
    ((roll_up (known drop ∷ known drop ∷ [])).0 ≡ drop)
    ↔ ((known drop ∷ known drop ∷ [] ≢ []) × AllAre drop (known drop ∷ known drop ∷ []))
roll_up_iff_example = roll_up_iff drop (known drop ∷ known drop ∷ []) (λ e. ground arith)
