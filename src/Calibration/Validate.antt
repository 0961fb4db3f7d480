-- ===== src/Calibration/Validate.antt =====
-- The check of a candidate set of bands (validate_numeric_bands of calibration/bands.py). Numbers are
-- counted in units, as in Calibration/Bands.antt; `units` of them make 1.
use silver_invention.Prelude.{
  ℕ, ◌*◌, ◌^◌, Option, none, some, Bool, true, false, not, List, [], ◌∷◌, ◌++◌, if◌then◌else◌,
}
use silver_invention.Prelude.Int.{ℤ, sub_ℕ, ltb_ℤ, eqb_ℤ}
use silver_invention.Calibration.Bands.{Band, ScoreDomain, NumericBand, in_domain}
pub mod Cover

pub data Edge : Type 0 where
  min_edge max_edge : Edge

-- The texts of the problems, with what they show.
pub data Problem : Type 0 where
  zero_width : Band → ℤ → Problem
  unbounded_domain : Option ℤ → Option ℤ → Problem
  outside : Band → Edge → ℤ → Problem
  gap : ℤ → ℤ → Problem
  overlap : ℤ → ℤ → Problem

width_problem : NumericBand → Option ℤ → Option ℤ → List Problem
width_problem b none top = []
width_problem b (some low) none = []
width_problem b (some low) (some top) = if eqb_ℤ low top then zero_width b.band low ∷ [] else []

width_problems : List NumericBand → List Problem
unfolding width_problem
width_problems [] = []
width_problems (b ∷ bands) = width_problem b b.min b.max ++ width_problems bands

edge_problem : ScoreDomain → Band → Edge → Option ℤ → List Problem
edge_problem domain band edge none = []
edge_problem domain band edge (some value) =
    if in_domain value domain then [] else outside band edge value ∷ []

edge_problems : ScoreDomain → List NumericBand → List Problem
unfolding edge_problem
edge_problems domain [] = []
edge_problems domain (b ∷ bands) =
    edge_problem domain b.band min_edge b.min
    ++ (edge_problem domain b.band max_edge b.max ++ edge_problems domain bands)

abbrev pub or_else : Option ℤ → ℤ → ℤ
or_else none d = d
or_else (some a) _ = a

-- What one step of the walk reports, between the cursor and a band's start.
pub seam : ℤ → ℤ → List Problem
seam cursor start =
    if ltb_ℤ cursor start
    then gap cursor start ∷ []
    else if ltb_ℤ start cursor
    then overlap start cursor ∷ []
    else []

-- The walk over the ordered bands, from a cursor to the domain's maximum.
pub walk : ℤ → ℤ → ℤ → List NumericBand → List Problem
unfolding seam
walk floor ceiling cursor [] = if ltb_ℤ cursor ceiling then gap cursor ceiling ∷ [] else []
walk floor ceiling cursor (b ∷ bands) =
    seam cursor (or_else b.min floor) ++ walk floor ceiling (or_else b.max ceiling) bands

module _ (units : ℕ) where
  -- The sort key: `b.min`, or -1e9.
  abbrev pub key : NumericBand → ℤ
  key b = or_else b.min (sub_ℕ 0 (10 ^ 9 * units))

  -- `sorted` keeps the order of equal keys.
  pub insert_band : NumericBand → List NumericBand → List NumericBand
  insert_band b [] = b ∷ []
  insert_band b (c ∷ bands) =
      if ltb_ℤ (key c) (key b) then c ∷ insert_band b bands else b ∷ (c ∷ bands)

  pub sort_bands : List NumericBand → List NumericBand
  unfolding insert_band
  sort_bands [] = []
  sort_bands (b ∷ bands) = insert_band b (sort_bands bands)

  validate_bounded : List NumericBand → ScoreDomain → Option ℤ → Option ℤ → List Problem
  unfolding edge_problems walk sort_bands
  validate_bounded bands domain none ceiling = unbounded_domain none ceiling ∷ []
  validate_bounded bands domain (some floor) none = unbounded_domain (some floor) none ∷ []
  validate_bounded bands domain (some floor) (some ceiling) =
      edge_problems domain bands ++ walk floor ceiling floor (sort_bands bands)

  unfoldable pub validate_numeric_bands : List NumericBand → ScoreDomain → List Problem
  unfolding width_problems validate_bounded
  validate_numeric_bands bands domain =
      width_problems bands ++ validate_bounded bands domain domain.min domain.max
