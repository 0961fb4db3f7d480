-- ===== src/Attribution/Resolve.antt =====
-- Whom a face is attributed to (imageshield/attribution/resolve.py). Floats are a parameter, of which
-- the code uses the order, the constant 0.0 and its truth value; a user reference is parsed from an
-- ExternalImageId by a parameter: `parse_user_ref` is the UUID parser of the standard library.
use silver_invention.Prelude.{
  ℕ, Option, none, some, Bool, true, false, ◌||◌, List, [], ◌∷◌, if◌then◌else◌, ◌==◌,
}
use silver_invention.Prelude.Dict.{Dict, lookup, insert}
pub mod Best
pub mod Distinct

pub record Float : Type 1 where
  pub F : Type 0
  pub lt : F → F → Bool
  pub zero_f : F
  pub is_truthy : F → Bool

abbrev pub mem : ℕ → List ℕ → Bool
mem x [] = false
mem x (y ∷ ys) = x == y || mem x ys

module _ (fl : Float) (parse_user_ref : ℕ → Option ℕ) where
  open fl use {F, lt, zero_f, is_truthy}

  pub record BoundingBox : Type 0 where
    pub x : F
    pub y : F
    pub w : F
    pub h : F

  pub record DetectedFace : Type 0 where
    pub face_index : ℕ
    pub bbox : BoundingBox
    pub detect_confidence : F

  pub record FaceMatch : Type 0 where
    pub external_image_id : ℕ
    pub similarity : F

  -- `__post_init__` asks for both of the last two or neither; the calls below give both or neither.
  pub record AttributedFace : Type 0 where
    pub face_index : ℕ
    pub bbox : BoundingBox
    pub detect_confidence : F
    pub resolved_user_ref : Option ℕ
    pub match_score : Option F

  unfoldable pub as_candidate : ℕ → List ℕ → Option ℕ
  as_candidate external_image_id allowed = elim (parse_user_ref external_image_id) [
    | none ↦ none
    | some ref ↦ if mem ref allowed then some ref else none
  ]

  pub surviving : List FaceMatch → List ℕ → List (FaceMatch × ℕ)
  unfolding as_candidate
  surviving [] allowed = []
  surviving (m ∷ matches) allowed =
      let rest = surviving matches allowed in
      elim (as_candidate m.external_image_id allowed) [ none ↦ rest | some ref ↦ (m, ref) ∷ rest ]

  -- `max` keeps the first of the greatest.
  pub best_of : FaceMatch × ℕ → List (FaceMatch × ℕ) → FaceMatch × ℕ
  best_of b [] = b
  best_of b (p ∷ ps) = best_of (if lt b.0.similarity p.0.similarity then p else b) ps

  abbrev pub attributed : DetectedFace → Option ℕ → Option F → AttributedFace
  attributed face ref score = record {
    face_index = face.face_index;
    bbox = face.bbox;
    detect_confidence = face.detect_confidence;
    resolved_user_ref = ref;
    match_score = score;
  }

  abbrev pub winner : DetectedFace → List (FaceMatch × ℕ) → AttributedFace
  winner face [] = attributed face none none
  winner face (p ∷ ps) = let b = best_of p ps in attributed face (some b.1) (some b.0.similarity)

  unfoldable pub resolve_face : DetectedFace → List FaceMatch → List ℕ → AttributedFace
  unfolding surviving best_of
  resolve_face face matches candidate_refs = winner face (surviving matches candidate_refs)

  -- `face.match_score or 0.0`
  abbrev pub score_or_zero : Option F → F
  score_or_zero none = zero_f
  score_or_zero (some score) = if is_truthy score then score else zero_f

  abbrev pub is_higher : AttributedFace → Option AttributedFace → Bool
  is_higher face none = true
  is_higher face (some current) =
      lt (score_or_zero current.match_score) (score_or_zero face.match_score)

  abbrev pub keep_best : AttributedFace → Dict AttributedFace → Option ℕ → Dict AttributedFace
  keep_best face best none = best
  keep_best face best (some ref) =
      if is_higher face (lookup ref best) then insert ref face best else best

  -- The loop over the faces, from the dict so far.
  pub distinct_loop : List AttributedFace → Dict AttributedFace → Dict AttributedFace
  distinct_loop [] best = best
  distinct_loop (face ∷ faces) best =
      distinct_loop faces (keep_best face best face.resolved_user_ref)

  unfoldable pub distinct_attributed : List AttributedFace → Dict AttributedFace
  unfolding distinct_loop
  distinct_attributed faces = distinct_loop faces []
