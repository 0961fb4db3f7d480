-- ===== src/Confirm/Worker.antt =====
-- The handling of one message of the confirm queue (handle_message of imageshield/confirm/worker.py),
-- over the hits and tasks of the confirm store and the provider control store. What the code calls
-- outside is a parameter, with how it ends where it raises: the fetcher, the image decoder (`none` is
-- UndecodableImage), Rekognition. A float that is written to a column, a payload and an image are
-- numbers. The stores' transactions of one message follow one another: that no other worker, reviewer
-- or subject writes between them is assumed, and so is that the connection to the database holds. The
-- unwired _fetch_via_page_preview is not modelled.
use silver_invention.Prelude.{
  ℕ, Option, none, some, Bool, true, false, ◌||◌, List, [], ◌∷◌, if◌then◌else◌, leb, length, take,
}
use silver_invention.Prelude.Int.{ℤ}
use silver_invention.Prelude.Dict.{Dict, lookup}
use silver_invention.Providers.Breaker.{CallStatus, ok, error}
use silver_invention.Providers.Models.{
  ProviderResult, Decision, dispatch, skip, SkipReason, Detail, adapter_text,
}
use silver_invention.Providers.Store.{World, Settings, runtimes, record_skip, record_outcome}
use silver_invention.Providers.Gate.{decide}
use silver_invention.Attribution.Resolve.{
  Float as ResolveFloat, DetectedFace, FaceMatch, AttributedFace, BoundingBox, resolve_face,
}
use silver_invention.Confirm.Triage.{
  Float as TriageFloat, ModerationLabel, is_explicit, classify, csam_quarantine, Severity,
  ncii_suspected, explicit_unmatched, unassessed, benign_copy, likely_not_subject, bit_count,
  find_duplicate,
}
use silver_invention.Confirm.Store.{Hit, Tables, ConfirmState, is_open}
use silver_invention.Confirm.Store.Writes.{
  record_duplicate, record_quarantine, record_triage, record_auto_confirmed, record_unfetchable,
  record_skipped, decided_phashes,
}
pub mod Handle
pub mod Attended
pub mod Known
pub mod Handled
mod Examples

pub record ConfirmContext : Type 0 where
  pub infringement_id : ℕ
  pub user_ref : ℕ
  pub confirm_state : ConfirmState
  pub image_url : Option ℕ
  pub page_url : ℕ
  pub run_id : Option ℕ

abbrev pub context_of : ℕ → Option Hit → Option ConfirmContext
context_of id none = none
context_of id (some h) = some (record {
  infringement_id = id;
  user_ref = h.user_ref;
  confirm_state = h.confirm_state;
  image_url = h.image_url;
  page_url = h.page_url;
  run_id = h.last_run_id;
})

-- PostgresConfirmStore.load_context
unfoldable pub load_context : ℕ → Dict Hit → Option ConfirmContext
load_context id hits = context_of id (lookup id hits)

-- What the fetcher answers: it raised with a text, it has no image, or the image.
pub data Fetched : Type 0 where
  fetch_failed : ℕ → Fetched
  no_image : Fetched
  fetched : ℕ → Fetched

-- How a call of Rekognition ends: with a value, with AttributionUnavailable or ConfirmUnavailable and
-- its text, or with another exception.
pub data Answer (A : Type 0) : Type 0 where
  returned : A → Answer A
  unavailable : ℕ → Answer A
  crashed : Answer A

-- The texts of record_unfetchable.
abbrev pub no_image_url : ℕ
no_image_url = 0

abbrev pub no_image_returned : ℕ
no_image_returned = 1

abbrev pub undecodable : ℕ
undecodable = 2

abbrev pub undecodable_for_rekognition : ℕ
undecodable_for_rekognition = 3

-- REKOGNITION_CONFIRM_ID
abbrev pub rekognition_confirm : ℕ
rekognition_confirm = 7

-- A hash with hardly any or nearly all bits set.
abbrev pub is_degenerate : ℕ → Bool
is_degenerate phash = leb (bit_count 64 phash) 4 || leb 60 (bit_count 64 phash)

-- Floats, with what this code and the parts it calls use of them.
pub record Float : Type 1 where
  pub F : Type 0
  pub ge : F → F → Bool
  pub lt : F → F → Bool
  pub mul : F → F → F
  pub zero_f : F
  pub is_truthy : F → Bool
  pub explicit_min_confidence : F

abbrev pub for_resolve : Float → ResolveFloat
for_resolve fl = record { F = fl.F; lt = fl.lt; zero_f = fl.zero_f; is_truthy = fl.is_truthy }

abbrev pub for_triage : Float → TriageFloat
for_triage fl = record {
  F = fl.F;
  ge = fl.ge;
  lt = fl.lt;
  explicit_min_confidence = fl.explicit_min_confidence;
}

-- The database's and the process's clocks: of the runtimes, the claim, the outcome and the writes; the
-- UTC date; the length of the bundle.
pub record Times : Type 0 where
  pub monotonic : ℕ
  pub claim_at : ℕ
  pub record_at : ℕ
  pub now : ℕ
  pub day : ℕ
  pub elapsed_ms : ℕ

module _ (fl : Float) (parse_user_ref : ℕ → Option ℕ) where
  abbrev pub Face : Type 0
  Face = DetectedFace (for_resolve fl) parse_user_ref

  abbrev pub Attributed : Type 0
  Attributed = AttributedFace (for_resolve fl) parse_user_ref

  abbrev pub Box : Type 0
  Box = BoundingBox (for_resolve fl) parse_user_ref

  abbrev pub Label : Type 0
  Label = ModerationLabel (for_triage fl)

  pub record ModerationSignal : Type 0 where
    pub labels : List Label
    pub min_age_low : Option fl.F

  -- The parameters of the worker, and what it calls.
  pub record ConfirmDeps : Type 0 where
    pub fetch : ℕ → Fetched
    pub dhash : ℕ → Option ℕ
    pub to_rekognition_jpeg : ℕ → Option ℕ
    pub detect_faces : ℕ → Answer (List Face)
    pub search_face : ℕ → Face → Answer (List (FaceMatch (for_resolve fl) parse_user_ref))
    pub assess : ℕ → Answer ModerationSignal
    pub face_match_threshold : fl.F
    pub max_faces : ℕ
    pub phash_hamming_max : ℕ
    pub csam_age_low_threshold : fl.F
    pub column : fl.F → ℕ
    pub labels_payload : List Label → ℕ
    pub triage_payload : ℕ → Option Box → Option fl.F → List Label → Bool → ℕ
    pub outcome_payload : ℕ → Option fl.F → ModerationSignal → ℕ
    pub skip_reason : SkipReason → ℕ
    pub skip_detail : Detail → ℕ

  abbrev pub face_area : Face → fl.F
  face_area face = fl.mul face.bbox.w face.bbox.h

  -- `sorted(faces, key=_face_area, reverse=True)`: faces of one area keep their order.
  unfoldable pub insert_face : Face → List Face → List Face
  insert_face face [] = face ∷ []
  insert_face face (other ∷ faces) =
      let rest = insert_face face faces in
      if fl.lt (face_area face) (face_area other) then other ∷ rest else face ∷ other ∷ faces

  unfoldable pub by_area : List Face → List Face
  unfolding insert_face
  by_area [] = []
  by_area (face ∷ faces) = insert_face face (by_area faces)

  abbrev pub attribute_face :
      ℕ
      → Face
      → Answer (List (FaceMatch (for_resolve fl) parse_user_ref))
      → Answer (List Attributed)
      → Answer (List Attributed)
  attribute_face user face (unavailable text) rest = unavailable text
  attribute_face user face crashed rest = crashed
  attribute_face user face (returned matches) (unavailable text) = unavailable text
  attribute_face user face (returned matches) crashed = crashed
  attribute_face user face (returned matches) (returned rest) =
      returned (resolve_face (for_resolve fl) parse_user_ref face matches (user ∷ []) ∷ rest)

  -- The search for each of the faces, for this one candidate.
  unfoldable pub attribute_faces : ConfirmDeps → ℕ → ℕ → List Face → Answer (List Attributed)
  attribute_faces deps image user [] = returned []
  attribute_faces deps image user (face ∷ faces) =
      let rest = attribute_faces deps image user faces in
      attribute_face user face (deps.search_face image face) rest

  -- The faces that were searched, what they resolve to, and the moderation signal.
  pub record Bundle : Type 0 where
    pub ranked_faces : List Face
    pub attributed : List Attributed
    pub moderation : ModerationSignal

  abbrev pub bundle_of :
      List Face → Answer (List Attributed) → Answer ModerationSignal → Answer Bundle
  bundle_of faces (unavailable text) moderation = unavailable text
  bundle_of faces crashed moderation = crashed
  bundle_of faces (returned attributed) (unavailable text) = unavailable text
  bundle_of faces (returned attributed) crashed = crashed
  bundle_of faces (returned attributed) (returned moderation) =
      returned (record { ranked_faces = faces; attributed = attributed; moderation = moderation })

  abbrev pub detected : ConfirmDeps → ℕ → ℕ → Answer (List Face) → Answer Bundle
  unfolding by_area attribute_faces
  detected deps image user (unavailable text) = unavailable text
  detected deps image user crashed = crashed
  detected deps image user (returned faces) =
      let ranked = take deps.max_faces (by_area faces) in
      bundle_of ranked (attribute_faces deps image user ranked) (deps.assess image)

  -- Step 6.
  unfoldable pub rekognition_bundle : ConfirmDeps → ℕ → ℕ → Answer Bundle
  rekognition_bundle deps image user = detected deps image user (deps.detect_faces image)

  abbrev pub Best : Type 0
  Best = Option fl.F × Option Box

  abbrev pub is_greater : fl.F → Option fl.F → Bool
  is_greater score none = true
  is_greater score (some best) = fl.lt best score

  abbrev pub better : Attributed → Option fl.F → Best → Best
  better face none best = best
  better face (some score) best =
      if is_greater score best.0 then (some score, some face.bbox) else best

  unfoldable pub best_face : Best → List Attributed → Best
  best_face best [] = best
  best_face best (face ∷ faces) = best_face (better face face.match_score best) faces

  -- A face that was detected stands in where none matched.
  abbrev pub or_largest : Option Box → List Face → Option Box
  or_largest (some box) faces = some box
  or_largest none [] = none
  or_largest none (face ∷ faces) = some face.bbox

  abbrev pub column_of : ConfirmDeps → Option fl.F → Option ℕ
  column_of deps none = none
  column_of deps (some score) = some (deps.column score)
