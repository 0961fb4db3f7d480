-- ===== src/Confirm/Store.antt =====
-- The confirm pipeline's writes to the hits and the review queue (imageshield/confirm/store.py, and the
-- columns and CHECKs of migrations/0021_confirm_and_review.up.sql and 0030). Each method is one
-- transaction on the tables and answers `none` where a constraint refuses it, so that it is rolled back.
-- A score, a list of labels, a bounding box and a text are numbers, which are only stored.
use silver_invention.Prelude.{
  ℕ, Option, none, some, Bool, true, false, not, ◌&&◌, ◌||◌, List, [], ◌∷◌, ◌++◌, if◌then◌else◌,
  ◌==◌, ◌+◌,
}
use silver_invention.Prelude.Dict.{Dict, lookup, update, insert, erase}
use silver_invention.Confirm.Triage.{Severity, ncii_suspected, unassessed}
use silver_invention.Search.Store.{HitStatus}
pub mod Writes

pub data ConfirmState : Type 0 where
  unconfirmed machine_triaged confirmed rejected duplicate quarantined : ConfirmState

-- `held` is 'quarantined'.
pub data TaskStatus : Type 0 where
  pending decided held : TaskStatus

pub data Decision : Type 0 where
  confirm reject : Decision

-- A row of `infringements`, with the domain of its page and the run of its representative attestation.
pub record Hit : Type 0 where
  pub user_ref : ℕ
  pub source_domain : ℕ
  pub page_url : ℕ
  pub image_url : Option ℕ
  pub preview_image_url : Option ℕ
  pub status : HitStatus
  pub confirm_state : ConfirmState
  pub severity : Option Severity
  pub confirm_decided_by : Option ℕ
  pub confirm_decided_at : Option ℕ
  pub duplicate_of : Option ℕ
  pub phash : Option ℕ
  pub face_match_score : Option ℕ
  pub moderation_labels : Option ℕ
  pub last_run_id : Option ℕ

-- The payloads of `review_tasks.triage`.
pub data Triage : Type 0 where
  quarantine_of : Option ℕ → Triage
  triage_of : ℕ → Triage
  auto_confirmed_of : ℕ → Triage
  unfetchable_for : ℕ → Triage
  skipped_for : ℕ → ℕ → Triage

-- A row of `review_tasks`; its key in the table is the hit, of which it is the only task.
pub record Task : Type 0 where
  pub task_id : ℕ
  pub user_ref : ℕ
  pub severity : Severity
  pub triage : Triage
  pub status : TaskStatus
  pub decision : Option Decision
  pub decided_by : Option ℕ
  pub decided_at : Option ℕ

pub data VerdictKind : Type 0 where
  true_positive false_positive unsure : VerdictKind

-- Rows of `audit_log`: the subject, the hit, and what the metadata says.
pub data Audit : Type 0 where
  quarantined_row : ℕ → ℕ → Option ℕ → Audit
  auto_confirmed_row : ℕ → ℕ → Option ℕ → Audit
  uncertain_row : ℕ → ℕ → ℕ → Audit
  decided_row : ℕ → ℕ → Decision → Option Severity → ℕ → Audit
  subject_row : ℕ → ℕ → Decision → Option Severity → ℕ → Audit
  verdict_row : ℕ → ℕ → VerdictKind → ℕ → Option Severity → ConfirmState → Audit

pub record Verdict : Type 0 where
  pub infringement_id : ℕ
  pub operator : ℕ
  pub verdict : VerdictKind
  pub note : Option ℕ
  pub machine_severity : Option Severity
  pub face_match_score : Option ℕ
  pub confirm_state_at_verdict : ConfirmState

pub record Tables : Type 0 where
  pub next_id : ℕ
  pub hits : Dict Hit
  pub tasks : Dict Task
  pub verdicts : List Verdict
  pub audit_log : List Audit

-- The texts 'subject' and AUTO_CONFIRM_DECIDED_BY of `confirm_decided_by`; an operator's name is
-- another number.
abbrev pub subject_text : ℕ
subject_text = 0

abbrev pub auto_text : ℕ
auto_text = 1

abbrev pub is_some {ℓ} : {A : Type ℓ} → Option A → Bool
is_some none = false
is_some (some a) = true

-- confirm_state IN ('unconfirmed', 'machine_triaged')
abbrev pub is_open : ConfirmState → Bool
is_open unconfirmed = true
is_open machine_triaged = true
is_open confirmed = false
is_open rejected = false
is_open duplicate = false
is_open quarantined = false

-- 'confirmed' or 'rejected', by a person or by record_auto_confirmed.
abbrev pub is_final : ConfirmState → Bool
is_final confirmed = true
is_final rejected = true
is_final unconfirmed = false
is_final machine_triaged = false
is_final duplicate = false
is_final quarantined = false

abbrev pub is_pending : TaskStatus → Bool
is_pending pending = true
is_pending decided = false
is_pending held = false

-- CHECK infringements_confirmed_needs_human
abbrev pub has_decider : ConfirmState → Option ℕ → Option ℕ → Bool
has_decider confirmed by moment = is_some by && is_some moment
has_decider unconfirmed by moment = true
has_decider machine_triaged by moment = true
has_decider rejected by moment = true
has_decider duplicate by moment = true
has_decider quarantined by moment = true

-- CHECK infringements_duplicate_needs_source
abbrev pub has_source : ConfirmState → Option ℕ → Bool
has_source duplicate source = is_some source
has_source unconfirmed source = not (is_some source)
has_source machine_triaged source = not (is_some source)
has_source confirmed source = not (is_some source)
has_source rejected source = not (is_some source)
has_source quarantined source = not (is_some source)

abbrev pub passes : Hit → Bool
passes h =
    has_decider h.confirm_state h.confirm_decided_by h.confirm_decided_at
    && has_source h.confirm_state h.duplicate_of

-- The CHECKs on the row that a transaction wrote.
abbrev pub commit_at {ℓ} : {A : Type ℓ} → Hit → A → Option A
commit_at row a = if passes row then some a else none

abbrev pub open_row : Option Hit → Option Hit
open_row none = none
open_row (some h) = if is_open h.confirm_state then some h else none

-- The row that a guarded UPDATE finds.
abbrev pub open_hit : ℕ → Dict Hit → Option Hit
open_hit id hits = open_row (lookup id hits)

-- ON CONFLICT (infringement_id) DO UPDATE … WHERE review_tasks.status = 'pending'
abbrev pub revised : Task → Option Task → Task
revised new none = new
revised new (some old) =
    if is_pending old.status
    then record old { severity = new.severity; triage = new.triage; status = new.status }
    else old

abbrev pub upsert_task : ℕ → Task → Dict Task → Dict Task
upsert_task id new tasks = insert id (revised new (lookup id tasks)) tasks

abbrev pub new_task : ℕ → Hit → Severity → Triage → TaskStatus → Task
new_task task_id h severity triage status = record {
  task_id = task_id;
  user_ref = h.user_ref;
  severity = severity;
  triage = triage;
  status = status;
  decision = none;
  decided_by = none;
  decided_at = none;
}
