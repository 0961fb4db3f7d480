-- ===== src/Calibration/Validate/Cover.antt =====
-- A valid set of bands covers its domain (validate_numeric_bands and _numeric_band of
-- calibration/bands.py).
use silver_invention.Calibration.Bands.Safety.{AnyBand}
use silver_invention.Prelude.{
  ◌≡◌, ◌⊎◌, refl, some, true, List, [], ◌∷◌, ◌++◌, arith, inl, Bool-cases, inr,
}
use silver_invention.Prelude.Int.{ℤ, ◌≤ℤ◌, ltb_ℤ}
use silver_invention.Calibration.Bands.{ScoreDomain, NumericBand, covers, numeric_band, Band}
use silver_invention.Calibration.Validate.{
  width_problems, edge_problems, key, Problem, or_else, seam, validate_numeric_bands, insert_band,
  walk, sort_bands, ℕ, validate_bounded,
}

append-eq_nil : (xs ys : List Problem) → xs ++ ys ≡ [] → (xs ≡ []) × (ys ≡ [])
append-eq_nil [] ys h = (refl, h)
append-eq_nil (x ∷ xs) ys h = cc

-- A score at or above the cursor is covered by the band that starts there, or lies at or above its
-- end, which is then below the ceiling.
covered_or_beyond :
    (b : NumericBand) (domain : ScoreDomain) (floor ceiling cursor score : ℤ)
    → domain.max ≡ some ceiling
    → seam cursor (or_else b.min floor) ≡ []
    → cursor ≤ℤ score
    → score ≤ℤ ceiling
    → (covers score domain b ≡ true)
      ⊎ ((or_else b.max ceiling ≤ℤ score) × (ltb_ℤ (or_else b.max ceiling) ceiling ≡ true))
unfolding seam covers
covered_or_beyond b domain floor ceiling cursor score dm s lo hi = ground arith

module _ (domain : ScoreDomain) (floor ceiling score : ℤ) (top : domain.max ≡ some ceiling) where
  abbrev Covering : NumericBand → Type 0
  Covering b = covers score domain b ≡ true

  walk_covers :
      (bands : List NumericBand) (cursor : ℤ)
      → walk floor ceiling cursor bands ≡ []
      → cursor ≤ℤ score
      → score ≤ℤ ceiling
      → ltb_ℤ cursor ceiling ≡ true
      → AnyBand Covering bands
  unfolding walk
  walk_covers [] cursor h lo hi below = absurd (ground arith)
  walk_covers (b ∷ bands) cursor h lo hi below =
      let (clean, rest) = append-eq_nil (seam cursor (or_else b.min floor)) _ h in
      elim (covered_or_beyond b domain floor ceiling cursor score top clean lo hi) [
        | inl here ↦ inl here
        | inr (beyond, short) ↦ inr (walk_covers bands (or_else b.max ceiling) rest beyond hi short)
      ]

  -- Sorting loses no band.
  any-insert :
      (units : ℕ) (b : NumericBand) (bands : List NumericBand)
      → AnyBand Covering (insert_band units b bands)
      → Covering b ⊎ AnyBand Covering bands
  unfolding insert_band
  any-insert units b [] h = h
  any-insert units b (c ∷ bands) h = elim (Bool-cases (ltb_ℤ (key units c) (key units b))) [
    | inl later ↦
        let h' : AnyBand Covering (c ∷ insert_band units b bands) = rw later at h in
        elim h' [
          | inl here ↦ inr (inl here)
          | inr there ↦ elim (any-insert units b bands there) [
            | inl x ↦ inl x
            | inr y ↦ inr (inr y)
          ]
        ]
    | inr first ↦ rw first at h
  ]

  any-sort :
      (units : ℕ) (bands : List NumericBand)
      → AnyBand Covering (sort_bands units bands)
      → AnyBand Covering bands
  unfolding sort_bands
  any-sort units [] h = h
  any-sort units (b ∷ bands) h = elim (any-insert units b (sort_bands units bands) h) [
    | inl here ↦ inl here
    | inr there ↦ inr (any-sort units bands there)
  ]

  any-numeric_band :
      (bands : List NumericBand)
      → AnyBand Covering bands
      → (band : Band) × (numeric_band score bands domain ≡ some band)
  unfolding numeric_band
  any-numeric_band [] h = absurd h
  any-numeric_band (b ∷ bands) h = elim (Bool-cases (covers score domain b)) [
    | inl here ↦ (b.band, ground arith)
    | inr past ↦ elim h [
      | inl here ↦ absurd (cc)
      | inr there ↦ let (band, e) = any-numeric_band bands there in (band, rw past e)
    ]
  ]

-- A set of bands in which the check finds no problem, for a domain whose minimum lies below its
-- maximum, leaves no hole: every score from the minimum to the maximum, both included, gets a band.
pub valid_bands_cover :
    (units : ℕ) (bands : List NumericBand) (domain : ScoreDomain) (floor ceiling score : ℤ)
    → domain.min ≡ some floor
    → domain.max ≡ some ceiling
    → ltb_ℤ floor ceiling ≡ true
    → validate_numeric_bands units bands domain ≡ []
    → floor ≤ℤ score
    → score ≤ℤ ceiling
    → (band : Band) × (numeric_band score bands domain ≡ some band)
unfolding validate_numeric_bands
valid_bands_cover units bands domain floor ceiling score bottom top proper valid lo hi =
    let bounded : validate_bounded units bands domain (some floor) (some ceiling) ≡ [] =
      simp (bottom, top) at ((append-eq_nil (width_problems bands) _ valid).1) in
    let walked = (append-eq_nil (edge_problems domain bands) _ bounded).1 in
    any-numeric_band domain floor ceiling score top bands (
      any-sort domain floor ceiling score top units bands (
        walk_covers domain floor ceiling score top (sort_bands units bands) floor walked lo hi
          proper))
