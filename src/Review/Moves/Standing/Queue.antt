-- ===== src/Review/Moves/Standing/Queue.antt =====
-- The queue says the same as the hit after each kind of move (imageshield/confirm/store.py).
use silver_invention.Review.Subject.{is_subject, is_theirs}
use silver_invention.Confirm.Store.{ConfirmState, revised, TaskStatus, Decision, is_pending}
use silver_invention.Review.Store.{is_quarantined}
use silver_invention.Prelude.{
  ℕ, ◌≡◌, refl, ap, ◌∙◌, Option, none, some, true, false, arith, Bool-cases, inl, inr,
}
use silver_invention.Prelude.Dict.{map_option}
use silver_invention.Confirm.Store.{TaskStatus, pending, decided, held, confirm, reject, Task}
use silver_invention.Review.Moves.{
  SameStanding, dropped, Hit, Task, is_open, pending, ruling_of, write, subject_hit, subject_task,
}
use silver_invention.Review.Moves.Standing.{TaskAgrees, Queued}
use silver_invention.Review.Moves.Standing.States.{
  not_open-held, pending-is_pending, write-by, write-held, unquarantined-decision,
}

pending-TaskAgrees :
    (state : ConfirmState) (by : Option ℕ) (status : TaskStatus) (d : Option Decision)
    (b : Option ℕ)
    → status ≡ pending
    → is_quarantined state ≡ false
    → TaskAgrees state by status d b
pending-TaskAgrees state by pending d b e q = q
pending-TaskAgrees state by decided d b e q = absurd (ground arith)
pending-TaskAgrees state by held d b e q = absurd (ground arith)

-- A hit that is open has a task that is pending, if it has one.
pub open-pending :
    (state : ConfirmState) (by : Option ℕ) (status : TaskStatus) (d : Option Decision)
    (b : Option ℕ)
    → is_open state ≡ true
    → TaskAgrees state by status d b
    → status ≡ pending
open-pending state by pending d b o q = refl
open-pending state by decided d b o (confirm, e, s, f) = absurd (ground arith)
open-pending state by decided d b o (reject, e, s, f) = absurd (ground arith)
open-pending state by held d b o q = absurd (not_open-held state o q)

pub unquarantined :
    (state : ConfirmState) (by : Option ℕ) (status : TaskStatus) (d : Option Decision)
    (b : Option ℕ)
    → status ≡ pending
    → TaskAgrees state by status d b
    → is_quarantined state ≡ false
unquarantined state by pending d b e q = q
unquarantined state by decided d b e q = absurd (ground arith)
unquarantined state by held d b e q = absurd (ground arith)

pub open-Queued :
    (h h' : Hit) (new : Task) (task : Option Task)
    → is_open h.confirm_state ≡ true
    → new.status ≡ pending
    → is_quarantined h'.confirm_state ≡ false
    → Queued h task
    → Queued h' (some (revised new task))
open-Queued h h' new none o e q queued = pending-TaskAgrees _ _ _ _ _ e q
open-Queued h h' new (some old) o e q queued =
    let was = ap is_pending (open-pending _ _ _ _ _ o queued) in
    rw was (pending-TaskAgrees _ _ _ _ _ e q)

pub asked-Queued :
    (h : Hit) (new : Task) (task : Option Task)
    → new.status ≡ pending
    → Queued h task
    → Queued h (some (revised new task))
asked-Queued h new none e queued = pending-TaskAgrees _ _ _ _ _ e queued
asked-Queued h new (some old) e queued = elim (Bool-cases (is_pending old.status)) [
  | inl was ↦
      let q = unquarantined _ _ _ _ _ (pending-is_pending _ was) queued in
      rw was (pending-TaskAgrees _ _ _ _ _ e q)
  | inr other ↦ rw other queued
]

held-TaskAgrees :
    (state : ConfirmState) (by : Option ℕ) (status : TaskStatus) (d : Option Decision)
    (b : Option ℕ)
    → status ≡ held
    → is_quarantined state ≡ true
    → TaskAgrees state by status d b
held-TaskAgrees state by held d b e q = q
held-TaskAgrees state by decided d b e q = absurd (ground arith)
held-TaskAgrees state by pending d b e q = absurd (ground arith)

pub held-Queued :
    (h h' : Hit) (new : Task) (task : Option Task)
    → is_open h.confirm_state ≡ true
    → new.status ≡ held
    → is_quarantined h'.confirm_state ≡ true
    → Queued h task
    → Queued h' (some (revised new task))
held-Queued h h' new none o e q queued = held-TaskAgrees _ _ _ _ _ e q
held-Queued h h' new (some old) o e q queued =
    let was = ap is_pending (open-pending _ _ _ _ _ o queued) in
    rw was (held-TaskAgrees _ _ _ _ _ e q)

pub dropped-Queued :
    (h h' : Hit) (task : Option Task)
    → is_open h.confirm_state ≡ true
    → is_quarantined h'.confirm_state ≡ false
    → Queued h task
    → Queued h' (dropped task)
dropped-Queued h h' none o q queued = q
dropped-Queued h h' (some old) o q queued =
    let was = ap is_pending (open-pending _ _ _ _ _ o queued) in rw was q

write-is_theirs :
    (state : ConfirmState) (by : Option ℕ) (status : TaskStatus) (d : Option Decision)
    (b : Option ℕ) (decision : Decision)
    → ruling_of state by decision ≡ write
    → TaskAgrees state by status d b
    → is_theirs status b ≡ true
write-is_theirs state by pending d b decision e q = refl
write-is_theirs state by decided d b decision e (old, _, is, same) =
    ap is_subject same ∙ write-by state by old decision e is
write-is_theirs state by held d b decision e q = absurd (write-held state by decision e q)

pub subject-Queued :
    (h : Hit) (now : ℕ) (decision : Decision) (task : Option Task)
    → ruling_of h.confirm_state h.confirm_decided_by decision ≡ write
    → Queued h task
    → Queued (subject_hit now decision h) (map_option (subject_task now decision) task)
subject-Queued h now decision none e queued = unquarantined-decision decision
subject-Queued h now decision (some old) e queued =
    rw (write-is_theirs _ _ _ _ _ decision e queued) (decision, refl, refl, refl)

pub same-Queued :
    (h h' : Hit) (task : Option Task) → SameStanding h h' → Queued h task → Queued h' task
same-Queued h h' none same q = ap is_quarantined same.same_state ∙ q
same-Queued h h' (some old) same q =
    let state = same.same_state in let by = same.same_by in rw (state, by) q
