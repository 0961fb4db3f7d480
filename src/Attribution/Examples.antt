-- ===== src/Attribution/Examples.antt =====
-- A face at concrete inputs: a stranger with the highest score, and two matches of candidates.
use silver_invention.Prelude.{
  ℕ, ◌≡◌, refl, Option, none, some, List, [], ◌∷◌, ◌==◌, arith, ltb, if◌then◌else◌,
}
use silver_invention.Attribution.Resolve.{
  Float, BoundingBox, DetectedFace, FaceMatch, resolve_face, AttributedFace, distinct_attributed,
}
use silver_invention.Prelude.Dict.{lookup, Unique, insert}
use silver_invention.Attribution.Resolve.Distinct.{Kept, distinct_attributed-Kept}
use silver_invention.Attribution.Resolve.Best.{IsOrder, Attributed, resolve_face-Attributed}

abbrev percent : Float
percent = record { F = ℕ; lt = ltb; zero_f = 0; is_truthy = λ n. ltb 0 n }

percent-IsOrder : IsOrder percent
percent-IsOrder = record {
  irreflexive = λ x. ground arith;
  transitive = λ x y z h k. ground arith;
  cotransitive = λ x y z h. ground arith;
}

abbrev parse : ℕ → Option ℕ
parse n = if n == 0 then none else some n

abbrev box : BoundingBox percent parse
box = record { x = 10; y = 20; w = 30; h = 40 }

abbrev face : DetectedFace percent parse
face = record { face_index = 0; bbox = box; detect_confidence = 99 }

abbrev matches : List (FaceMatch percent parse)
matches =
    record { external_image_id = 8; similarity = 99 }
    ∷ record { external_image_id = 0; similarity = 98 }
    ∷ record { external_image_id = 2; similarity = 81 }
    ∷ record { external_image_id = 3; similarity = 90 }
    ∷ []

abbrev household : List ℕ
household = 2 ∷ 3 ∷ []

resolved : (resolve_face percent parse face matches household).resolved_user_ref ≡ some 3
unfolding resolve_face
resolved = refl

resolve_face-Attributed_example :
    Attributed percent parse percent-IsOrder matches household
      (resolve_face percent parse face matches household)
resolve_face-Attributed_example =
    resolve_face-Attributed percent parse percent-IsOrder face matches household

abbrev shows : ℕ → ℕ → ℕ → AttributedFace percent parse
shows index ref score = record {
  face_index = index;
  bbox = box;
  detect_confidence = 99;
  resolved_user_ref = some ref;
  match_score = some score;
}

abbrev mirror : List (AttributedFace percent parse)
mirror = shows 0 3 81 ∷ shows 1 5 90 ∷ shows 2 3 85 ∷ []

kept_faces : distinct_attributed percent parse mirror ≡ (3, shows 2 3 85) ∷ (5, shows 1 5 90) ∷ []
unfolding distinct_attributed insert
kept_faces = refl

distinct_attributed-Kept_example :
    Unique (distinct_attributed percent parse mirror)
    × ((ref : ℕ)
        → Kept percent parse percent-IsOrder ref mirror
            (lookup ref (distinct_attributed percent parse mirror)))
distinct_attributed-Kept_example = distinct_attributed-Kept percent parse percent-IsOrder mirror
