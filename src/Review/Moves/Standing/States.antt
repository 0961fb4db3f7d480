-- ===== src/Review/Moves/Standing/States.antt =====
-- What the states of a hit and the subject's ruling exclude (imageshield/review/store.py).
use silver_invention.Review.Subject.{is_subject}
use silver_invention.Confirm.Store.{
  is_final, auto_text, ConfirmState, confirmed, TaskStatus, Decision, has_source, is_pending,
}
use silver_invention.Review.Store.{is_quarantined, state_of}
use silver_invention.Prelude.{ℕ, ◌≡◌, refl, Option, some, true, false, arith}
use silver_invention.Confirm.Store.{
  TaskStatus, pending, decided, held, confirm, reject, quarantined, confirmed, rejected,
  unconfirmed, machine_triaged, duplicate,
}
use silver_invention.Review.Moves.{is_some, is_open, pending, is_reserved, ruling_of, write}

pub not_open-held : (state : ConfirmState) → is_open state ≡ true → is_quarantined state ≡ true → ⊥
not_open-held unconfirmed o q = ground arith
not_open-held machine_triaged o q = ground arith
not_open-held confirmed o q = ground arith
not_open-held rejected o q = ground arith
not_open-held duplicate o q = ground arith
not_open-held quarantined o q = ground arith

pub open-final : (state : ConfirmState) → is_open state ≡ true → is_final state ≡ false
open-final unconfirmed o = refl
open-final machine_triaged o = refl
open-final confirmed o = absurd (ground arith)
open-final rejected o = absurd (ground arith)
open-final duplicate o = refl
open-final quarantined o = refl

pub pending-is_pending : (status : TaskStatus) → is_pending status ≡ true → status ≡ pending
pending-is_pending pending e = refl
pending-is_pending decided e = absurd (ground arith)
pending-is_pending held e = absurd (ground arith)

pub decide-state : (decision : Decision) → is_final (state_of decision) ≡ true
decide-state confirm = refl
decide-state reject = refl

pub unquarantined-decision : (decision : Decision) → is_quarantined (state_of decision) ≡ false
unquarantined-decision confirm = refl
unquarantined-decision reject = refl

pub decision-source :
    (decision : Decision) (source : Option ℕ)
    → is_some source ≡ false
    → has_source (state_of decision) source ≡ true
decision-source confirm source e = ground arith
decision-source reject source e = ground arith

-- A hit that the subject may decide has no source.
pub write-source :
    (state : ConfirmState) (by source : Option ℕ) (decision : Decision)
    → ruling_of state by decision ≡ write
    → has_source state source ≡ true
    → is_some source ≡ false
write-source unconfirmed by source decision e q = ground arith
write-source machine_triaged by source decision e q = ground arith
write-source confirmed by source decision e q = ground arith
write-source rejected by source decision e q = ground arith
write-source duplicate by source decision e q = absurd (ground arith)
write-source quarantined by source decision e q = absurd (ground arith)

pub not_auto : (operator : ℕ) → is_reserved operator ≡ false → some operator ≡ some auto_text → ⊥
not_auto operator r e = ground arith

-- A decided hit that the subject may decide again was decided by the subject.
pub write-by :
    (state : ConfirmState) (by : Option ℕ) (old decision : Decision)
    → ruling_of state by decision ≡ write
    → state ≡ state_of old
    → is_subject by ≡ true
write-by confirmed by old decision e q = ground arith
write-by rejected by old decision e q = ground arith
write-by unconfirmed by confirm decision e q = absurd (ground arith)
write-by unconfirmed by reject decision e q = absurd (ground arith)
write-by machine_triaged by confirm decision e q = absurd (ground arith)
write-by machine_triaged by reject decision e q = absurd (ground arith)
write-by duplicate by old decision e q = absurd (ground arith)
write-by quarantined by old decision e q = absurd (ground arith)

pub write-held :
    (state : ConfirmState) (by : Option ℕ) (decision : Decision)
    → ruling_of state by decision ≡ write
    → is_quarantined state ≡ true
    → ⊥
write-held unconfirmed by decision e q = ground arith
write-held machine_triaged by decision e q = ground arith
write-held confirmed by decision e q = ground arith
write-held rejected by decision e q = ground arith
write-held duplicate by decision e q = ground arith
write-held quarantined by decision e q = ground arith

pub open-source :
    (state : ConfirmState) (source : Option ℕ)
    → is_open state ≡ true
    → has_source state source ≡ true
    → is_some source ≡ false
open-source unconfirmed source o q = ground arith
open-source machine_triaged source o q = ground arith
open-source confirmed source o q = absurd (ground arith)
open-source rejected source o q = absurd (ground arith)
open-source duplicate source o q = absurd (ground arith)
open-source quarantined source o q = absurd (ground arith)
