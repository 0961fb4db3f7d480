-- ===== src/Confirm/Worker/Handle.antt =====
-- The handling of one message of the confirm queue (handle_message of imageshield/confirm/worker.py): one
-- function for what follows each of its steps.
use silver_invention.Prelude.{ℕ, Option, none, some, Bool, true, false, [], if◌then◌else◌, length}
use silver_invention.Prelude.Int.{ℤ}
use silver_invention.Prelude.Dict.{lookup}
use silver_invention.Providers.Breaker.{CallStatus, ok, error}
use silver_invention.Providers.Models.{
  ProviderResult, Decision, dispatch, skip, SkipReason, Detail, adapter_text,
}
use silver_invention.Providers.Store.{World, Settings, runtimes, record_skip, record_outcome}
use silver_invention.Providers.Gate.{decide}
use silver_invention.Confirm.Triage.{
  is_explicit, classify, csam_quarantine, Severity, ncii_suspected, explicit_unmatched, unassessed,
  benign_copy, likely_not_subject, find_duplicate,
}
use silver_invention.Confirm.Store.{Tables, is_open}
use silver_invention.Confirm.Store.Writes.{
  record_duplicate, record_quarantine, record_triage, record_auto_confirmed, record_unfetchable,
  record_skipped, decided_phashes,
}
use silver_invention.Confirm.Worker.{
  crashed, unavailable, returned, ConfirmContext, load_context, Fetched, fetch_failed, no_image,
  fetched, no_image_url, no_image_returned, undecodable, undecodable_for_rekognition,
  rekognition_confirm, is_degenerate, Float, for_triage, Times, ConfirmDeps, Bundle, best_face,
  or_largest, column_of, rekognition_bundle, Answer, unavailable, returned,
}

abbrev pub is_ncii : Severity → Bool
is_ncii ncii_suspected = true
is_ncii explicit_unmatched = false
is_ncii unassessed = false
is_ncii benign_copy = false
is_ncii likely_not_subject = false

-- What the message did: whether it is deleted from the queue, and the two stores.
abbrev pub Handled : Type 0
Handled = Bool × World × Tables

-- The outer net: an exception that nothing else caught leaves the message for redelivery.
abbrev pub finish : World → Tables → Option Tables → Handled
finish w t none = (false, w, t)
finish w t (some t') = (true, w, t')

-- _record_outcome_guarded; `none` where the store raises.
abbrev pub record_outcome_guarded :
    Settings → ℕ → Option ℕ → ProviderResult → Option ℤ → ℕ → World → Option World
record_outcome_guarded s t none result cost day w = some w
record_outcome_guarded s t (some run) result cost day w =
    record_outcome s t (some run) none result cost day w

-- Without a run there is nothing to log; `none` where the store raises.
abbrev pub record_skip_guarded : Option ℕ → SkipReason → Detail → World → Option World
record_skip_guarded none reason detail w = some w
record_skip_guarded (some run) reason detail w =
    record_skip (some run) none rekognition_confirm reason detail w

module _ (fl : Float) (parse_user_ref : ℕ → Option ℕ) where
  abbrev pub provider_result : CallStatus → ℕ → Option Detail → ℕ → ProviderResult
  provider_result status payload detail latency = record {
    provider_id = rekognition_confirm;
    status = status;
    matches = [];
    raw_response = payload;
    http_status = none;
    latency_ms = latency;
    attempts = 1;
    error_detail = detail;
  }

  -- Steps 8 and 9: the store's write for what the bundle says.
  unfoldable pub judge :
      ConfirmDeps fl parse_user_ref
      → Times
      → ConfirmContext
      → ℕ
      → ℕ
      → Bundle fl parse_user_ref
      → Tables
      → Option Tables
  judge deps times ctx url phash b t =
      let explicit = is_explicit (for_triage fl) b.moderation.labels in
      let best = best_face fl parse_user_ref (none, none) b.attributed in
      let score = column_of fl parse_user_ref deps best.0 in
      let labels = deps.labels_payload b.moderation.labels in
      let severity = classify (for_triage fl) explicit best.0 deps.face_match_threshold in
      let payload =
        deps.triage_payload url (or_largest fl parse_user_ref best.1 b.ranked_faces) best.0
          b.moderation.labels (is_degenerate phash) in
      if csam_quarantine (for_triage fl) explicit b.moderation.min_age_low
        deps.csam_age_low_threshold
      then record_quarantine ctx.infringement_id (some phash) labels
          (column_of fl parse_user_ref deps b.moderation.min_age_low) t
      else if is_ncii severity
      then record_auto_confirmed times.now ctx.infringement_id (some phash) score (some labels)
          payload t
      else record_triage ctx.infringement_id severity (some phash) score (some labels) payload t

  -- Steps 7 to 9, where the outcome could be recorded.
  abbrev pub concluded :
      ConfirmDeps fl parse_user_ref
      → Times
      → ConfirmContext
      → ℕ
      → ℕ
      → Bundle fl parse_user_ref
      → World
      → Tables
      → Option World
      → Handled
  concluded deps times ctx url phash b w t none = (false, w, t)
  concluded deps times ctx url phash b w t (some w') =
      finish w' t (judge deps times ctx url phash b t)

  -- The outcome of a bundle that failed, if it could be recorded.
  abbrev pub or_world : World → Option World → World
  or_world w none = w
  or_world w (some w') = w'

  -- Steps 6 to 9. The cost is that of the dispatch.
  abbrev pub after_bundle :
      Settings
      → ConfirmDeps fl parse_user_ref
      → Times
      → ConfirmContext
      → ℕ
      → ℕ
      → Option ℤ
      → World
      → Tables
      → Answer (Bundle fl parse_user_ref)
      → Handled
  after_bundle s deps times ctx url phash cost w t crashed = (false, w, t)
  after_bundle s deps times ctx url phash cost w t (unavailable text) = (
    false,
    or_world w (
        record_outcome_guarded s times.record_at ctx.run_id
          (provider_result error 0 (some (adapter_text text)) times.elapsed_ms) cost times.day w),
    t,
  )
  after_bundle s deps times ctx url phash cost w t (returned b) =
      concluded deps times ctx url phash b w t (
        record_outcome_guarded s times.record_at ctx.run_id
          (provider_result ok
            (deps.outcome_payload (length b.ranked_faces)
              (best_face fl parse_user_ref (none, none) b.attributed).0 b.moderation)
            none times.elapsed_ms)
          cost times.day w)

  abbrev pub with_jpeg :
      Settings
      → ConfirmDeps fl parse_user_ref
      → Times
      → ConfirmContext
      → ℕ
      → ℕ
      → Option ℤ
      → World
      → Tables
      → Option ℕ
      → Handled
  with_jpeg s deps times ctx url phash cost w t none =
      finish w t (record_unfetchable ctx.infringement_id undecodable_for_rekognition t)
  with_jpeg s deps times ctx url phash cost w t (some jpeg) =
      after_bundle s deps times ctx url phash cost w t
        (rekognition_bundle fl parse_user_ref deps jpeg ctx.user_ref)

  -- What follows a skip that could be logged, or not.
  abbrev pub after_skip :
      ConfirmDeps fl parse_user_ref
      → ConfirmContext
      → SkipReason
      → Detail
      → World
      → Tables
      → Option World
      → Handled
  after_skip deps ctx reason detail w t none = (false, w, t)
  after_skip deps ctx reason detail w t (some w') = finish w' t (
      some
        (record_skipped ctx.infringement_id (deps.skip_reason reason) (deps.skip_detail detail) t))

  -- What follows the gate's decision.
  abbrev pub gated :
      Settings
      → ConfirmDeps fl parse_user_ref
      → Times
      → ConfirmContext
      → ℕ
      → ℕ
      → ℕ
      → Tables
      → Decision × World
      → Handled
  gated s deps times ctx url image phash t (skip pid reason detail, w) =
      after_skip deps ctx reason detail w t (record_skip_guarded ctx.run_id reason detail w)
  gated s deps times ctx url image phash t (dispatch pid cost probe, w) =
      with_jpeg s deps times ctx url phash cost w t (deps.to_rekognition_jpeg image)

  -- Step 5.
  abbrev pub ask_gate :
      Settings
      → ConfirmDeps fl parse_user_ref
      → Times
      → ConfirmContext
      → ℕ
      → ℕ
      → ℕ
      → World
      → Tables
      → Handled
  ask_gate s deps times ctx url image phash w t =
      let (rows, w') = runtimes s times.monotonic w in
      gated s deps times ctx url image phash t
        (decide s times.claim_at times.day rekognition_confirm (lookup rekognition_confirm rows) w')

  -- Step 4: a hash that says something is looked for among the decided hits of the same user.
  abbrev pub duplicate_of_decided :
      ConfirmDeps fl parse_user_ref → ConfirmContext → ℕ → Tables → Option ℕ
  duplicate_of_decided deps ctx phash t =
      if is_degenerate phash
      then none
      else find_duplicate phash (decided_phashes ctx.user_ref t.hits) deps.phash_hamming_max

  abbrev pub after_dedup :
      Settings
      → ConfirmDeps fl parse_user_ref
      → Times
      → ConfirmContext
      → ℕ
      → ℕ
      → ℕ
      → World
      → Tables
      → Option ℕ
      → Handled
  after_dedup s deps times ctx url image phash w t (some source) =
      finish w t (record_duplicate ctx.infringement_id source phash t)
  after_dedup s deps times ctx url image phash w t none =
      ask_gate s deps times ctx url image phash w t

  abbrev pub hashed :
      Settings
      → ConfirmDeps fl parse_user_ref
      → Times
      → ConfirmContext
      → ℕ
      → ℕ
      → World
      → Tables
      → Option ℕ
      → Handled
  hashed s deps times ctx url image w t none =
      finish w t (record_unfetchable ctx.infringement_id undecodable t)
  hashed s deps times ctx url image w t (some phash) =
      after_dedup s deps times ctx url image phash w t (duplicate_of_decided deps ctx phash t)

  -- Step 3.
  abbrev pub after_fetch :
      Settings
      → ConfirmDeps fl parse_user_ref
      → Times
      → ConfirmContext
      → ℕ
      → World
      → Tables
      → Fetched
      → Handled
  after_fetch s deps times ctx url w t (fetch_failed text) =
      finish w t (record_unfetchable ctx.infringement_id text t)
  after_fetch s deps times ctx url w t no_image =
      finish w t (record_unfetchable ctx.infringement_id no_image_returned t)
  after_fetch s deps times ctx url w t (fetched image) =
      hashed s deps times ctx url image w t (deps.dhash image)

  -- Step 2.
  abbrev pub with_url :
      Settings
      → ConfirmDeps fl parse_user_ref
      → Times
      → ConfirmContext
      → World
      → Tables
      → Option ℕ
      → Handled
  with_url s deps times ctx w t none =
      finish w t (record_unfetchable ctx.infringement_id no_image_url t)
  with_url s deps times ctx w t (some url) = after_fetch s deps times ctx url w t (deps.fetch url)

  abbrev pub in_context :
      Settings
      → ConfirmDeps fl parse_user_ref
      → Times
      → World
      → Tables
      → Option ConfirmContext
      → Handled
  in_context s deps times w t none = (true, w, t)
  in_context s deps times w t (some ctx) =
      if is_open ctx.confirm_state
      then with_url s deps times ctx w t ctx.image_url
      else (true, w, t)

  -- `body` is the hit of a CONFIRM_REQUESTED_EVENT, or `none` for what is malformed or another event.
  unfoldable pub handle_message :
      Settings → ConfirmDeps fl parse_user_ref → Times → Option ℕ → World → Tables → Handled
  unfolding load_context judge
  handle_message s deps times none w t = (true, w, t)
  handle_message s deps times (some id) w t = in_context s deps times w t (load_context id t.hits)
