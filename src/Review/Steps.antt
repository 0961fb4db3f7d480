-- ===== src/Review/Steps.antt =====
-- Any sequence of transactions on the hits and the review queue: those of the confirm worker
-- (imageshield/confirm/store.py), of operators and subjects (imageshield/review/store.py), and what the
-- search store writes to these columns (a new hit, a signal, a later run).
use silver_invention.Prelude.{ℕ, Option, none, some, List, [], ◌∷◌}
use silver_invention.Prelude.Dict.{Dict, lookup, update, insert}
use silver_invention.Confirm.Triage.{Severity}
use silver_invention.Search.Store.{HitStatus, fresh}
use silver_invention.Confirm.Store.{Hit, Tables, Decision, VerdictKind, unconfirmed}
use silver_invention.Confirm.Store.Writes.{
  record_duplicate, record_quarantine, record_triage, record_auto_confirmed, record_unfetchable,
  record_preview_image_url, record_skipped,
}
use silver_invention.Review.Store.{OperatorDecision, decide, record_verdict}
use silver_invention.Review.Subject.{subject_decide}
pub mod Follows
pub mod Machine
pub mod People
pub mod Safety
pub mod Final

pub data Op : Type 0 where
  discover : ℕ → ℕ → ℕ → Option ℕ → ℕ → Op
  touch_hit : ℕ → HitStatus → ℕ → Op
  join : ℕ → ℕ → ℕ → Op
  quarantine : ℕ → Option ℕ → ℕ → Option ℕ → Op
  triage : ℕ → Severity → Option ℕ → Option ℕ → Option ℕ → ℕ → Op
  auto_confirm : ℕ → ℕ → Option ℕ → Option ℕ → Option ℕ → ℕ → Op
  give_up : ℕ → ℕ → Op
  preview : ℕ → ℕ → Op
  skip_hit : ℕ → ℕ → ℕ → Op
  rule_on : ℕ → ℕ → OperatorDecision → ℕ → Option Severity → Op
  answer_hit : ℕ → ℕ → ℕ → Decision → Op
  label : ℕ → ℕ → VerdictKind → Option ℕ → Op

-- A transaction that raises is rolled back.
abbrev pub or_before : Option Tables → Tables → Tables
or_before none t = t
or_before (some t') t = t'

abbrev pub committed {ℓ} : {A : Type ℓ} → Option (A × Tables) → Tables → Tables
committed none t = t
committed (some (a, t')) t = t'

-- The columns of a hit that a search has found for the first time; its domain goes by the page's number.
abbrev pub found_hit : ℕ → ℕ → Option ℕ → ℕ → Hit
found_hit user page image run = record {
  user_ref = user;
  source_domain = page;
  page_url = page;
  image_url = image;
  preview_image_url = none;
  status = fresh;
  confirm_state = unconfirmed;
  severity = none;
  confirm_decided_by = none;
  confirm_decided_at = none;
  duplicate_of = none;
  phash = none;
  face_match_score = none;
  moderation_labels = none;
  last_run_id = some run;
}

abbrev pub add_hit : ℕ → Hit → Option Hit → Dict Hit → Dict Hit
add_hit id new none hits = insert id new hits
add_hit id new (some old) hits = hits

-- A signal of the subject, and the last run that attests the hit.
abbrev pub set_signal : HitStatus → ℕ → Hit → Hit
set_signal status run h = record h { status = status; last_run_id = some run }

unfoldable pub apply : Op → Tables → Tables
apply (discover id user page image run) t = record t {
  hits = add_hit id (found_hit user page image run) (lookup id t.hits) t.hits;
}
apply (touch_hit id status run) t = record t { hits = update id (set_signal status run) t.hits }
apply (join id source phash) t = or_before (record_duplicate id source phash t) t
apply (quarantine id phash labels age) t = or_before (record_quarantine id phash labels age t) t
apply (triage id severity phash score labels payload) t =
    or_before (record_triage id severity phash score labels payload t) t
apply (auto_confirm now id phash score labels payload) t =
    or_before (record_auto_confirmed now id phash score labels payload t) t
apply (give_up id detail) t = or_before (record_unfetchable id detail t) t
apply (preview id url) t = record_preview_image_url id url t
apply (skip_hit id reason detail) t = record_skipped id reason detail t
apply (rule_on now task decision operator severity) t =
    committed (decide now task decision operator severity t) t
apply (answer_hit now id user decision) t = committed (subject_decide now id user decision t) t
apply (label id operator verdict note) t = (record_verdict id operator verdict note t).1

-- The first operation first.
unfoldable pub apply_all : List Op → Tables → Tables
unfolding apply
apply_all [] t = t
apply_all (op ∷ ops) t = apply_all ops (apply op t)

abbrev pub no_rows : Tables
no_rows = record { next_id = 0; hits = []; tasks = []; verdicts = []; audit_log = [] }
