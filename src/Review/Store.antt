-- ===== src/Review/Store.antt =====
-- The decisions of operators (decide and record_verdict of imageshield/review/store.py) on the tables
-- of the confirm store. Each method is one transaction; `none` is a constraint or an assertion that fails, so that it
-- is rolled back. An operator's name is a number.
use silver_invention.Prelude.{
  ℕ, Option, none, some, Bool, true, false, ◌&&◌, [], ◌∷◌, if◌then◌else◌, ◌==◌,
}
use silver_invention.Prelude.Dict.{Dict, lookup, update}
use silver_invention.Confirm.Triage.{Severity}
use silver_invention.Confirm.Store.{
  ConfirmState, unconfirmed, machine_triaged, confirmed, rejected, duplicate, quarantined, decided,
  Decision, confirm, reject, VerdictKind, Verdict, verdict_row, decided_row, uncertain_row,
  commit_at, is_pending, Tables, Hit, Task,
}

pub data OperatorDecision : Type 0 where
  ruled : Decision → OperatorDecision
  uncertain : OperatorDecision

pub record DecisionOutcome : Type 0 where
  pub infringement_id : ℕ
  pub user_ref : ℕ
  pub decision : OperatorDecision
  pub severity : Option Severity

abbrev pub state_of : Decision → ConfirmState
state_of confirm = confirmed
state_of reject = rejected

abbrev pub find_behind : ℕ → Task → ℕ → Option (ℕ × Task) → Option (ℕ × Task)
find_behind id task task_id rest =
    if task.task_id == task_id && is_pending task.status then some (id, task) else rest

-- _LOCK_TASK_SQL: the task, with its hit.
unfoldable pub lock_task : ℕ → Dict Task → Option (ℕ × Task)
lock_task task_id [] = none
lock_task task_id ((id, task) ∷ tasks) =
    let rest = lock_task task_id tasks in find_behind id task task_id rest

-- _UPDATE_TASK_SQL
abbrev pub decide_task : ℕ → Decision → ℕ → Task → Task
decide_task now decision operator task = record task {
  status = decided;
  decision = some decision;
  decided_by = some operator;
  decided_at = some now;
}

abbrev pub coalesce_severity : Option Severity → Option Severity → Option Severity
coalesce_severity none old = old
coalesce_severity (some new) old = some new

-- _UPDATE_INFRINGEMENT_SQL
abbrev pub decide_hit : ℕ → Decision → ℕ → Option Severity → Hit → Hit
decide_hit now decision operator severity h = record h {
  confirm_state = state_of decision;
  severity = coalesce_severity severity h.severity;
  confirm_decided_by = some operator;
  confirm_decided_at = some now;
}

abbrev pub outcome_of : ℕ → ℕ → OperatorDecision → Option Severity → DecisionOutcome
outcome_of id user decision severity = record {
  infringement_id = id;
  user_ref = user;
  decision = decision;
  severity = severity;
}

-- Steps 3 and 4, on the hit of a task.
abbrev pub rule :
    ℕ
    → Decision
    → ℕ
    → Option Severity
    → ℕ
    → Task
    → Hit
    → Tables
    → Option (Option DecisionOutcome × Tables)
rule now decision operator severity id task h t =
    let final = coalesce_severity severity h.severity in
    commit_at (decide_hit now decision operator severity h) (
      some (outcome_of id task.user_ref (ruled decision) final),
      record t {
        tasks = update id (decide_task now decision operator) t.tasks;
        hits = update id (decide_hit now decision operator severity) t.hits;
        audit_log = decided_row task.user_ref id decision final operator ∷ t.audit_log;
      },
    )

-- A task refers to a hit that exists: the code asserts that the UPDATE returned a row.
abbrev pub rule_on_hit :
    ℕ
    → Decision
    → ℕ
    → Option Severity
    → ℕ
    → Task
    → Option Hit
    → Tables
    → Option (Option DecisionOutcome × Tables)
rule_on_hit now decision operator severity id task none t = none
rule_on_hit now decision operator severity id task (some h) t =
    rule now decision operator severity id task h t

abbrev pub decide_locked :
    ℕ
    → OperatorDecision
    → ℕ
    → Option Severity
    → Option (ℕ × Task)
    → Tables
    → Option (Option DecisionOutcome × Tables)
decide_locked now decision operator severity none t = some (none, t)
decide_locked now uncertain operator severity (some (id, task)) t = some (
  some (outcome_of id task.user_ref uncertain none),
  record t { audit_log = uncertain_row task.user_ref id operator ∷ t.audit_log },
)
decide_locked now (ruled decision) operator severity (some (id, task)) t =
    rule_on_hit now decision operator severity id task (lookup id t.hits) t

unfoldable pub decide :
    ℕ
    → ℕ
    → OperatorDecision
    → ℕ
    → Option Severity
    → Tables
    → Option (Option DecisionOutcome × Tables)
unfolding lock_task
decide now task_id decision operator severity t =
    decide_locked now decision operator severity (lock_task task_id t.tasks) t

abbrev pub is_quarantined : ConfirmState → Bool
is_quarantined quarantined = true
is_quarantined unconfirmed = false
is_quarantined machine_triaged = false
is_quarantined confirmed = false
is_quarantined rejected = false
is_quarantined duplicate = false

abbrev pub new_verdict : ℕ → ℕ → VerdictKind → Option ℕ → Hit → Verdict
new_verdict id operator verdict remark h = record {
  infringement_id = id;
  operator = operator;
  verdict = verdict;
  note = remark;
  machine_severity = h.severity;
  face_match_score = h.face_match_score;
  confirm_state_at_verdict = h.confirm_state;
}

abbrev pub verdict_on :
    ℕ → ℕ → VerdictKind → Option ℕ → Option Hit → Tables → Option Verdict × Tables
verdict_on id operator verdict remark none t = (none, t)
verdict_on id operator verdict remark (some h) t =
    if is_quarantined h.confirm_state then (none, t) else (
      some (new_verdict id operator verdict remark h),
      record t {
        verdicts = new_verdict id operator verdict remark h ∷ t.verdicts;
        audit_log =
            verdict_row h.user_ref id verdict operator h.severity h.confirm_state ∷ t.audit_log;
      },
    )

unfoldable pub record_verdict : ℕ → ℕ → VerdictKind → Option ℕ → Tables → Option Verdict × Tables
record_verdict id operator verdict remark t =
    verdict_on id operator verdict remark (lookup id t.hits) t
