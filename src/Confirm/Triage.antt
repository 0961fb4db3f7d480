-- ===== src/Confirm/Triage.antt =====
-- The triage rules (imageshield/confirm/triage.py, and hamming of confirm/phash.py). A perceptual hash
-- is its 64-bit pattern; a hit's id is only compared. Floats are a parameter, of which the rules use
-- the test `>=` and the constant 80.
use Prim.Native.Nat.{bit_xor}
use Prim.Native.String.{String}
use text.Mathlib.Text.{◌==◌ as str_eq}
use silver_invention.Prelude.{
  ℕ, zero, suc, ◌+◌, ◌/◌, ◌%◌, ◌^◌, Option, none, some, Bool, true, false, not, ◌&&◌, ◌||◌, List,
  [], ◌∷◌, if◌then◌else◌, ltb, leb,
}
pub mod Duplicates

pub data Severity : Type 0 where
  ncii_suspected explicit_unmatched unassessed benign_copy likely_not_subject : Severity

pub record Float : Type 1 where
  pub F : Type 0
  pub ge : F → F → Bool
  pub lt : F → F → Bool
  pub explicit_min_confidence : F

-- Membership in EXPLICIT_LABEL_PARENTS.
abbrev pub is_explicit_name : String → Bool
is_explicit_name name = str_eq name "Explicit Nudity" || str_eq name "Explicit"

module _ (fl : Float) where
  open fl use {F, ge, lt, explicit_min_confidence}

  pub record ModerationLabel : Type 0 where
    pub name : String
    pub parent_name : String
    pub confidence : F

  unfoldable pub is_explicit : List ModerationLabel → Bool
  is_explicit [] = false
  is_explicit (label ∷ labels) =
      ((is_explicit_name label.name || is_explicit_name label.parent_name)
        && ge label.confidence explicit_min_confidence)
      || is_explicit labels

  abbrev pub is_matched : Option F → F → Bool
  is_matched none threshold = false
  is_matched (some score) threshold = ge score threshold

  unfoldable pub classify : Bool → Option F → F → Severity
  classify explicit score threshold =
      let matched = is_matched score threshold in
      if explicit && matched
      then ncii_suspected
      else if explicit
      then explicit_unmatched
      else if matched
      then benign_copy
      else likely_not_subject

  -- The estimate is below the threshold: `min_age_low < age_low_threshold`, the threshold taken as a float.
  abbrev pub below_age : Option F → F → Bool
  below_age none threshold = false
  below_age (some age) threshold = lt age threshold

  unfoldable pub csam_quarantine : Bool → Option F → F → Bool
  csam_quarantine explicit min_age_low age_low_threshold =
      explicit && below_age min_age_low age_low_threshold

-- `bit_count` of a pattern, on as many rounds as it has bits.
unfoldable pub bit_count : ℕ → ℕ → ℕ
bit_count zero n = 0
bit_count (suc bits) n = n % 2 + bit_count bits (n / 2)

unfoldable pub hamming : ℕ → ℕ → ℕ
unfolding bit_count
hamming a b = bit_count 64 (bit_xor a b % 2 ^ 64)

-- The best candidate so far, with its distance.
abbrev pub Best : Type 0
Best = Option (ℕ × ℕ)

abbrev pub is_better : Best → ℕ → Bool
is_better none distance = true
is_better (some (_, best)) distance = ltb distance best

-- The loop over the decided hits.
unfoldable pub duplicate_loop : ℕ → ℕ → Best → List (ℕ × ℕ) → Best
duplicate_loop new_phash hamming_max best [] = best
duplicate_loop new_phash hamming_max best ((id, phash) ∷ decided) =
    duplicate_loop new_phash hamming_max
      (let distance = hamming new_phash phash in
        if leb distance hamming_max && is_better best distance then some (id, distance) else best)
      decided

abbrev pub id_of : Best → Option ℕ
id_of none = none
id_of (some (id, _)) = some id

unfoldable pub find_duplicate : ℕ → List (ℕ × ℕ) → ℕ → Option ℕ
unfolding duplicate_loop
find_duplicate new_phash decided hamming_max =
    id_of (duplicate_loop new_phash hamming_max none decided)
