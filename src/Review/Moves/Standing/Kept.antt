-- ===== src/Review/Moves/Standing/Kept.antt =====
-- Every move of a hit and its task keeps what holds of them (imageshield/confirm/store.py and
-- imageshield/review/store.py).
use silver_invention.Confirm.Triage.{Severity}
use silver_invention.Confirm.Store.{is_final, revised, Decision, has_source}
use silver_invention.Prelude.{
  ℕ, ◌≡◌, refl, sym, ap, subst, ◌∙◌, Option, some, true, false, arith, not,
}
use silver_invention.Prelude.Dict.{map_option}
use silver_invention.Confirm.Store.{pending, Task}
use silver_invention.Review.Moves.{
  Move, kept, asked, triaged, unfetchable, auto_confirmed, held_back, joined, overruled, answered,
  SameStanding, Hit, Task, is_some, is_open, pending, is_reserved, ruling_of, write,
  set_auto_confirmed, subject_hit, decide_hit, subject_task, decide_task, set_triage,
  set_unfetchable, set_quarantine, set_duplicate,
}
use silver_invention.Review.Moves.Standing.{Queued, Standing}
use silver_invention.Review.Moves.Standing.States.{
  open-final, decide-state, decision-source, write-source, not_auto, open-source,
}
use silver_invention.Review.Moves.Standing.Queue.{
  subject-Queued, same-Queued, open-Queued, asked-Queued, held-Queued, dropped-Queued,
}

-- A machine's move of an open hit that names nobody.
machine-Standing :
    (h h' : Hit) (task task' : Option Task)
    → is_open h.confirm_state ≡ true
    → is_final h'.confirm_state ≡ false
    → h'.confirm_decided_by ≡ h.confirm_decided_by
    → h'.confirm_decided_at ≡ h.confirm_decided_at
    → has_source h'.confirm_state h'.duplicate_of ≡ true
    → Queued h' task'
    → Standing h task
    → Standing h' task'
machine-Standing h h' task task' o final by moment source queued s =
    let d = s.decider in
    let m = s.stamped in
    let nobody : is_final h.confirm_state ≡ false = open-final _ o in
    let none_named : is_some h'.confirm_decided_by ≡ false = ap is_some by ∙ d ∙ nobody in
    record {
      decider = none_named ∙ sym final;
      stamped = ap is_some moment ∙ m ∙ nobody ∙ sym final;
      by_machine = λ e. let named = ap is_some e in absurd (ground arith);
      source = source;
      queued = queued;
    }

subject-Standing :
    (h : Hit) (now : ℕ) (decision : Decision) (task : Option Task)
    → ruling_of h.confirm_state h.confirm_decided_by decision ≡ write
    → Standing h task
    → Standing (subject_hit now decision h) (map_option (subject_task now decision) task)
subject-Standing h now decision task e s = record {
  decider = sym (decide-state decision);
  stamped = sym (decide-state decision);
  by_machine = λ q. absurd (ground arith);
  source = decision-source decision _ (write-source _ _ _ decision e s.source);
  queued = subject-Queued h now decision task e s.queued;
}

operator-Standing :
    (h : Hit) (now : ℕ) (decision : Decision) (operator : ℕ) (severity : Option Severity)
    (old : Task)
    → is_reserved operator ≡ false
    → is_some h.duplicate_of ≡ false
    → Standing
        (decide_hit now decision operator severity h)
        (some (decide_task now decision operator old))
operator-Standing h now decision operator severity old r e = record {
  decider = sym (decide-state decision);
  stamped = sym (decide-state decision);
  by_machine = λ q. absurd (not_auto operator r q);
  source = decision-source decision _ e;
  queued = (decision, refl, refl, refl);
}

same-Standing :
    (h h' : Hit) (task : Option Task) → SameStanding h h' → Standing h task → Standing h' task
same-Standing h h' task same s = record {
  decider = ap is_some same.same_by ∙ s.decider ∙ ap is_final (sym same.same_state);
  stamped = ap is_some same.same_at ∙ s.stamped ∙ ap is_final (sym same.same_state);
  by_machine = λ q.
      let (state, severity) = s.by_machine (sym same.same_by ∙ q) in
      (same.same_state ∙ state, same.same_severity ∙ severity);
  source =
      let state = same.same_state in let origin = same.same_source in rw (state, origin) s.source;
  queued = same-Queued h h' task same s.queued;
}

auto-Standing :
    (h : Hit) (now : ℕ) (phash score labels : Option ℕ) (new : Task) (task : Option Task)
    → is_open h.confirm_state ≡ true
    → new.status ≡ pending
    → Standing h task
    → Standing (set_auto_confirmed now phash score labels h) (some (revised new task))
auto-Standing h now phash score labels new task o e s = record {
  decider = refl;
  stamped = refl;
  by_machine = λ q. (refl, refl);
  source = rw (open-source _ _ o s.source) refl;
  queued = open-Queued h (set_auto_confirmed now phash score labels h) new task o e refl s.queued;
}

asked-Standing :
    (h : Hit) (new : Task) (task : Option Task)
    → new.status ≡ pending
    → Standing h task
    → Standing h (some (revised new task))
asked-Standing h new task p s = record {
  decider = s.decider;
  stamped = s.stamped;
  by_machine = s.by_machine;
  source = s.source;
  queued = asked-Queued h new task p s.queued;
}

at_rows :
    (h h' : Hit) (task task' : Option Task)
    → h' ≡ h
    → task' ≡ task
    → Standing h task
    → Standing h' task'
at_rows h h' task task' e f s =
    subst (λ x. Standing x task') (sym e) (subst (λ x. Standing h x) (sym f) s)

pub open-none :
    (h : Hit) (task : Option Task)
    → is_open h.confirm_state ≡ true
    → Standing h task
    → is_some h.duplicate_of ≡ false
open-none h task o s = open-source h.confirm_state h.duplicate_of o s.source

-- What a transaction does to a hit and its task keeps this: a hit has a decider and a time exactly if it
-- is decided, the machine has confirmed nothing but suspected intimate images, a hit has a source
-- exactly if it is a duplicate, a decided task has the hit's state and decider, and a hit is quarantined
-- exactly if its task is.
pub move-Standing :
    (h h' : Hit) (task task' : Option Task)
    → Move h task h' task'
    → Standing h task
    → Standing h' task'
move-Standing h h' task task' (kept same e) s =
    subst (λ x. Standing h' x) (sym e) (same-Standing h h' task same s)
move-Standing h h' task task' (asked new p e f) s =
    at_rows h h' _ task' e f (asked-Standing h new task p s)
move-Standing h h' task task' (triaged severity phash score labels new o p e f) s =
    let row = set_triage severity phash score labels h in
    let queued = open-Queued h row new task o p refl s.queued in
    let source = ap not (open-none h task o s) in
    at_rows row h' _ task' e f (machine-Standing h row task _ o refl refl refl source queued s)
move-Standing h h' task task' (unfetchable new o p e f) s =
    let row = set_unfetchable h in
    let queued = open-Queued h row new task o p refl s.queued in
    let source = ap not (open-none h task o s) in
    at_rows row h' _ task' e f (machine-Standing h row task _ o refl refl refl source queued s)
move-Standing h h' task task' (auto_confirmed now phash score labels new o p e f) s =
    at_rows _ h' _ task' e f (auto-Standing h now phash score labels new task o p s)
move-Standing h h' task task' (held_back phash labels new o p e f) s =
    let row = set_quarantine phash labels h in
    let queued = held-Queued h row new task o p refl s.queued in
    let source = ap not (open-none h task o s) in
    at_rows row h' _ task' e f (machine-Standing h row task _ o refl refl refl source queued s)
move-Standing h h' task task' (joined source phash o e f) s =
    let row = set_duplicate source phash h in
    let queued = dropped-Queued h row task o refl s.queued in
    at_rows row h' _ task' e f (machine-Standing h row task _ o refl refl refl refl queued s)
move-Standing h h' task task' (overruled now decision operator severity old q p r d e f) s =
    at_rows _ h' _ task' e f (operator-Standing h now decision operator severity old r d)
move-Standing h h' task task' (answered now decision r e f) s =
    at_rows _ h' _ task' e f (subject-Standing h now decision task r s)
