-- ===== src/Review/Moves/Standing.antt =====
-- What holds of a hit and its review task: who decided it, and that the queue says the same as the hit.
use silver_invention.Review.Subject.{is_subject, is_theirs}
use silver_invention.Confirm.Triage.{ncii_suspected, Severity}
use silver_invention.Confirm.Store.{
  is_final, auto_text, ConfirmState, revised, confirmed, TaskStatus, Decision, has_source,
  is_pending,
}
use silver_invention.Review.Store.{is_quarantined, state_of}
use silver_invention.Prelude.{
  ℕ, ◌≡◌, refl, sym, ap, subst, ◌∙◌, Option, none, some, true, false, arith, Bool-cases, inl, inr,
  not,
}
use silver_invention.Prelude.Dict.{map_option}
use silver_invention.Confirm.Store.{
  TaskStatus, pending, decided, held, confirm, reject, quarantined, confirmed, rejected,
  unconfirmed, machine_triaged, duplicate, Task,
}
use silver_invention.Review.Moves.{
  Move, kept, asked, triaged, unfetchable, auto_confirmed, held_back, joined, overruled, answered,
  SameStanding, dropped, Hit, Task, is_some, is_open, pending, is_reserved, ruling_of, write,
  set_auto_confirmed, subject_hit, decide_hit, subject_task, decide_task, set_triage,
  set_unfetchable, set_quarantine, set_duplicate,
}
pub mod States
pub mod Queue
pub mod Kept

-- What a task's columns say of its hit's state and decider.
abbrev pub TaskAgrees : ConfirmState → Option ℕ → TaskStatus → Option Decision → Option ℕ → Type 0
TaskAgrees state by pending d b = is_quarantined state ≡ false
TaskAgrees state by decided d b =
    (decision : Decision) × (d ≡ some decision) × (state ≡ state_of decision) × (b ≡ by)
TaskAgrees state by held d b = is_quarantined state ≡ true

abbrev pub Queued : Hit → Option Task → Type 0
Queued h none = is_quarantined h.confirm_state ≡ false
Queued h (some task) =
    TaskAgrees h.confirm_state h.confirm_decided_by task.status task.decision task.decided_by

pub record Standing (h : Hit) (task : Option Task) : Type 0 where
  pub decider : is_some h.confirm_decided_by ≡ is_final h.confirm_state
  pub stamped : is_some h.confirm_decided_at ≡ is_final h.confirm_state
  pub by_machine :
      h.confirm_decided_by ≡ some auto_text
      → (h.confirm_state ≡ confirmed) × (h.severity ≡ some ncii_suspected)
  pub source : has_source h.confirm_state h.duplicate_of ≡ true
  pub queued : Queued h task
