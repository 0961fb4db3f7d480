-- ===== src/Review/Subject.antt =====
-- A subject's own decision on a hit (subject_decide of imageshield/review/store.py), who may change
-- their mind and never overturns anybody else.
pub mod Answers
use silver_invention.Search.Store.{
  HitStatus, dismissed_not_me, fresh, acknowledged, authorised, user_resolved,
}
use silver_invention.Prelude.{ℕ, Option, none, some, Bool, true, false, ◌∷◌, if◌then◌else◌, ◌==◌}
use silver_invention.Prelude.Dict.{lookup, update}
use silver_invention.Confirm.Triage.{Severity}
use silver_invention.Confirm.Store.{
  ConfirmState, unconfirmed, machine_triaged, confirmed, rejected, duplicate, quarantined,
  TaskStatus, pending, decided, held, Decision, confirm, reject, subject_row, commit_at,
  subject_text, Tables, Hit, Task,
}
use silver_invention.Review.Store.{state_of, decide_task}

pub data SubjectOutcome : Type 0 where
  written replay conflict : SubjectOutcome

-- `decision` is the state that the hit has afterwards.
pub record SubjectDecisionOutcome : Type 0 where
  pub infringement_id : ℕ
  pub decision : ConfirmState
  pub severity : Option Severity
  pub outcome : SubjectOutcome

abbrev pub status_after : Decision → HitStatus → HitStatus
status_after reject status = dismissed_not_me
status_after confirm dismissed_not_me = fresh
status_after confirm fresh = fresh
status_after confirm acknowledged = acknowledged
status_after confirm authorised = authorised
status_after confirm user_resolved = user_resolved

-- _SUBJECT_DECIDE_INFRINGEMENT_SQL
abbrev pub subject_hit : ℕ → Decision → Hit → Hit
subject_hit now decision h = record h {
  confirm_state = state_of decision;
  confirm_decided_by = some subject_text;
  confirm_decided_at = some now;
  status = status_after decision h.status;
}

abbrev pub is_subject : Option ℕ → Bool
is_subject none = false
is_subject (some by) = by == subject_text

abbrev pub is_theirs : TaskStatus → Option ℕ → Bool
is_theirs pending by = true
is_theirs decided by = is_subject by
is_theirs held by = false

-- _SUBJECT_DECIDE_TASK_SQL
abbrev pub subject_task : ℕ → Decision → Task → Task
subject_task now decision task =
    if is_theirs task.status task.decided_by
    then decide_task now decision subject_text task
    else task

abbrev pub same_state : ConfirmState → Decision → Bool
same_state confirmed confirm = true
same_state rejected reject = true
same_state _ _ = false

abbrev pub subject_outcome :
    ℕ → ConfirmState → Option Severity → SubjectOutcome → SubjectDecisionOutcome
subject_outcome id state severity outcome = record {
  infringement_id = id;
  decision = state;
  severity = severity;
  outcome = outcome;
}

-- What the locked row says of the subject's decision: nothing to see, an answer, or a write.
pub data Ruling : Type 0 where
  hidden write : Ruling
  answer : SubjectOutcome → Ruling

abbrev pub ruling_of : ConfirmState → Option ℕ → Decision → Ruling
ruling_of quarantined by decision = hidden
ruling_of duplicate by decision = hidden
ruling_of unconfirmed by decision = write
ruling_of machine_triaged by decision = write
ruling_of confirmed by decision =
    if is_subject by
    then (if same_state confirmed decision then answer replay else write)
    else answer conflict
ruling_of rejected by decision =
    if is_subject by
    then (if same_state rejected decision then answer replay else write)
    else answer conflict

abbrev pub follow :
    ℕ → ℕ → Decision → Ruling → Hit → Tables → Option (Option SubjectDecisionOutcome × Tables)
follow now id decision hidden h t = some (none, t)
follow now id decision (answer outcome) h t =
    some (some (subject_outcome id h.confirm_state h.severity outcome), t)
follow now id decision write h t = commit_at (subject_hit now decision h) (
  some (subject_outcome id (state_of decision) h.severity written),
  record t {
    hits = update id (subject_hit now decision) t.hits;
    tasks = update id (subject_task now decision) t.tasks;
    audit_log = subject_row h.user_ref id decision h.severity h.source_domain ∷ t.audit_log;
  },
)

abbrev pub subject_on :
    ℕ → ℕ → ℕ → Decision → Option Hit → Tables → Option (Option SubjectDecisionOutcome × Tables)
subject_on now id user decision none t = some (none, t)
subject_on now id user decision (some h) t =
    if h.user_ref == user
    then follow now id decision (ruling_of h.confirm_state h.confirm_decided_by decision) h t
    else some (none, t)

unfoldable pub subject_decide :
    ℕ → ℕ → ℕ → Decision → Tables → Option (Option SubjectDecisionOutcome × Tables)
subject_decide now id user decision t = subject_on now id user decision (lookup id t.hits) t
