-- ===== src/Review/Moves.antt =====
-- The life of a hit and its review task (imageshield/confirm/store.py and imageshield/review/store.py),
-- as a step relation on the pair of their rows: what any one of the program's transactions may do to it.
pub mod Standing
use silver_invention.Prelude.{
  ℕ, ◌≡◌, Option, none, some, true, false, if◌then◌else◌, Bool, ◌==◌, ◌||◌,
}
use silver_invention.Prelude.Dict.{map_option}
use silver_invention.Confirm.Triage.{Severity}
use silver_invention.Confirm.Store.{
  pending, held, Decision, Hit, Task, is_some, is_open, is_pending, revised, subject_text,
  auto_text,
}
use silver_invention.Confirm.Store.Writes.{
  set_duplicate, set_quarantine, set_triage, set_auto_confirmed, set_unfetchable,
}
use silver_invention.Review.Store.{decide_task, decide_hit}
use silver_invention.Review.Subject.{subject_hit, subject_task, ruling_of, write}

-- The two texts that stand for no operator.
abbrev pub is_reserved : ℕ → Bool
is_reserved name = name == subject_text || name == auto_text

-- A pending task that is deleted.
abbrev pub dropped : Option Task → Option Task
dropped none = none
dropped (some task) = if is_pending task.status then none else some task

-- The columns that say where a hit stands.
pub record SameStanding (h h' : Hit) : Type 0 where
  pub same_state : h'.confirm_state ≡ h.confirm_state
  pub same_by : h'.confirm_decided_by ≡ h.confirm_decided_by
  pub same_at : h'.confirm_decided_at ≡ h.confirm_decided_at
  pub same_severity : h'.severity ≡ h.severity
  pub same_source : h'.duplicate_of ≡ h.duplicate_of

pub data Move (h : Hit) (task : Option Task) (h' : Hit) (task' : Option Task) : Type 0 where
  -- no more than the picture's address or the subject's position
  kept : SameStanding h h' → task' ≡ task → Move h task h' task'
  -- the gate refused the provider
  asked :
      (new : Task)
      → new.status ≡ pending
      → h' ≡ h
      → task' ≡ some (revised new task)
      → Move h task h' task'
  -- the machine's transitions
  triaged :
      (severity : Severity) (phash score labels : Option ℕ) (new : Task)
      → is_open h.confirm_state ≡ true
      → new.status ≡ pending
      → h' ≡ set_triage severity phash score labels h
      → task' ≡ some (revised new task)
      → Move h task h' task'
  unfetchable :
      (new : Task)
      → is_open h.confirm_state ≡ true
      → new.status ≡ pending
      → h' ≡ set_unfetchable h
      → task' ≡ some (revised new task)
      → Move h task h' task'
  auto_confirmed :
      (now : ℕ) (phash score labels : Option ℕ) (new : Task)
      → is_open h.confirm_state ≡ true
      → new.status ≡ pending
      → h' ≡ set_auto_confirmed now phash score labels h
      → task' ≡ some (revised new task)
      → Move h task h' task'
  held_back :
      (phash : Option ℕ) (labels : ℕ) (new : Task)
      → is_open h.confirm_state ≡ true
      → new.status ≡ held
      → h' ≡ set_quarantine phash labels h
      → task' ≡ some (revised new task)
      → Move h task h' task'
  joined :
      (source phash : ℕ)
      → is_open h.confirm_state ≡ true
      → h' ≡ set_duplicate source phash h
      → task' ≡ dropped task
      → Move h task h' task'
  -- the decision of an operator under a name of their own, on a pending task of a hit that is no duplicate
  overruled :
      (now : ℕ) (decision : Decision) (operator : ℕ) (severity : Option Severity) (old : Task)
      → task ≡ some old
      → old.status ≡ pending
      → is_reserved operator ≡ false
      → is_some h.duplicate_of ≡ false
      → h' ≡ decide_hit now decision operator severity h
      → task' ≡ some (decide_task now decision operator old)
      → Move h task h' task'
  -- the subject's own decision
  answered :
      (now : ℕ) (decision : Decision)
      → ruling_of h.confirm_state h.confirm_decided_by decision ≡ write
      → h' ≡ subject_hit now decision h
      → task' ≡ map_option (subject_task now decision) task
      → Move h task h' task'
