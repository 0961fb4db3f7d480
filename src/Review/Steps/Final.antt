-- ===== src/Review/Steps/Final.antt =====
-- What no later transaction takes back: the quarantine of a hit, and an operator's decision on it.
use silver_invention.Review.Subject.{is_subject}
use silver_invention.Review.Store.{is_quarantined, state_of}
use silver_invention.Prelude.{
  ℕ, ◌≡◌, refl, sym, ap, ◌∙◌, Option, none, some, true, false, List, [], ◌∷◌, arith, All,
}
use mathlib.Core.Option.{none-ne-some, some-injective}
use silver_invention.Confirm.Store.{
  held, ConfirmState, TaskStatus, pending, decided, Hit, Task, Tables, revised, is_pending,
  Decision, is_open, is_final,
}
use silver_invention.Prelude.Dict.{lookup}
use silver_invention.Review.Moves.{
  Move, kept, asked, triaged, unfetchable, auto_confirmed, held_back, joined, overruled, answered,
  is_reserved,
}
use silver_invention.Review.Moves.Standing.{Standing, TaskAgrees}
use silver_invention.Review.Moves.Standing.States.{
  not_open-held, write-held, write-by, open-final, decide-state,
}
use silver_invention.Review.Moves.Standing.Queue.{unquarantined}
use silver_invention.Review.Steps.{Op, apply, apply_all}
use silver_invention.Review.Steps.Safety.{TablesInv, IsNamed, apply-Follows, apply-TablesInv}

-- What every move of a hit that stands well keeps holds after any transactions.
persists :
    (P : Hit → Option Task → Type 0)
    → ((h h' : Hit) (task task' : Option Task)
        → Standing h task
        → Move h task h' task'
        → P h task
        → P h' task')
    → (ops : List Op) (t : Tables) (id : ℕ) (h : Hit) → All IsNamed ops
    → TablesInv t
    → lookup id t.hits ≡ some h
    → P h (lookup id t.tasks)
    → (h' : Hit) × (lookup id (apply_all ops t).hits ≡ some h')
      × P h' (lookup id (apply_all ops t).tasks)
unfolding apply_all
persists P keeps [] t id h n inv e p = (h, e, p)
persists P keeps (op ∷ ops) t id h (n, ns) inv e p =
    let (h', e', move) = (apply-Follows op t n inv.unique).moves id h e in
    persists P keeps ops (apply op t) id h' ns (apply-TablesInv op t n inv) e'
      (keeps h h' (lookup id t.tasks) (lookup id (apply op t).tasks) (inv.standing id h e) move p)

overruled-pending :
    (h : Hit) (task : Option Task) (old : Task)
    → Standing h task
    → task ≡ some old
    → old.status ≡ pending
    → is_quarantined h.confirm_state ≡ false
overruled-pending h none old s e p = absurd (none-ne-some old e)
overruled-pending h (some row) old s e p =
    let is : row ≡ old = some-injective _ _ e in
    unquarantined _ _ _ _ _ (ap (λ (r : Task). r.status) is ∙ p) s.queued

move-quarantined :
    (h h' : Hit) (task task' : Option Task)
    → Standing h task
    → Move h task h' task'
    → is_quarantined h.confirm_state ≡ true
    → is_quarantined h'.confirm_state ≡ true
move-quarantined h h' task task' s (kept same e) q = ap is_quarantined same.same_state ∙ q
move-quarantined h h' task task' s (asked new p e f) q =
    ap (λ (r : Hit). is_quarantined r.confirm_state) e ∙ q
move-quarantined h h' task task' s (triaged severity phash score labels new o p e f) q =
    absurd (not_open-held _ o q)
move-quarantined h h' task task' s (unfetchable new o p e f) q = absurd (not_open-held _ o q)
move-quarantined h h' task task' s (auto_confirmed now phash score labels new o p e f) q =
    absurd (not_open-held _ o q)
move-quarantined h h' task task' s (held_back phash labels new o p e f) q =
    absurd (not_open-held _ o q)
move-quarantined h h' task task' s (joined source phash o e f) q = absurd (not_open-held _ o q)
move-quarantined h h' task task' s (overruled now decision operator severity old e p r d f g) q =
    let other = overruled-pending h task old s e p in absurd (ground arith)
move-quarantined h h' task task' s (answered now decision r e f) q =
    absurd (write-held _ _ decision r q)

-- In tables with the invariant of Review/Steps/Safety.antt, a quarantined hit stays quarantined, whatever
-- transactions of the confirm worker, operators under names of their own, subjects and searches follow.
pub quarantine_stays :
    (ops : List Op) (t : Tables) (id : ℕ) (h : Hit)
    → All IsNamed ops
    → TablesInv t
    → lookup id t.hits ≡ some h
    → is_quarantined h.confirm_state ≡ true
    → (h' : Hit) × (lookup id (apply_all ops t).hits ≡ some h')
      × (is_quarantined h'.confirm_state ≡ true)
quarantine_stays ops t id h n inv e q =
    persists (λ row task. is_quarantined row.confirm_state ≡ true) move-quarantined ops t id h n inv
      e q

-- A hit in this state with this task, which an operator has decided.
pub record Ruled (operator : ℕ) (state : ConfirmState) (row : Task) (h : Hit) (task : Option Task)
    : Type 0 where
  pub same_task : task ≡ some row
  pub is_decided : row.status ≡ decided
  pub by_operator : row.decided_by ≡ some operator
  pub in_state : h.confirm_state ≡ state

decided-agrees :
    (state : ConfirmState) (by : Option ℕ) (status : TaskStatus) (d : Option Decision)
    (b : Option ℕ)
    → status ≡ decided
    → TaskAgrees state by status d b
    → (decision : Decision) × (state ≡ state_of decision) × (b ≡ by)
decided-agrees state by pending d b e q = absurd (ground arith)
decided-agrees state by held d b e q = absurd (ground arith)
decided-agrees state by decided d b e (decision, _, is, same) = (decision, is, same)

ruled-final :
    (h : Hit) (task : Option Task) (row : Task)
    → Standing h task
    → task ≡ some row
    → row.status ≡ decided
    → (decision : Decision) × (h.confirm_state ≡ state_of decision)
      × (row.decided_by ≡ h.confirm_decided_by)
ruled-final h none row s e d = absurd (none-ne-some row e)
ruled-final h (some old) row s e d =
    let is : old ≡ row = some-injective _ _ e in
    let (decision, state, by) =
      decided-agrees _ _ _ _ _ (ap (λ (r : Task). r.status) is ∙ d) s.queued in
    (decision, state, sym (ap (λ (r : Task). r.decided_by) is) ∙ by)

decided_not_open :
    (h : Hit) (task : Option Task) (row : Task)
    → Standing h task
    → task ≡ some row
    → row.status ≡ decided
    → is_open h.confirm_state ≡ true
    → ⊥
decided_not_open h task row s e d o =
    let (decision, state, by) = ruled-final h task row s e d in
    let final = decide-state decision in
    let other = open-final h.confirm_state o in let same = ap is_final state in ground arith

decided-revised :
    (new row : Task) (task : Option Task)
    → task ≡ some row
    → row.status ≡ decided
    → some (revised new task) ≡ some row
decided-revised new row none e d = absurd (none-ne-some row e)
decided-revised new row (some old) e d =
    let is : old ≡ row = some-injective _ _ e in
    let shut : is_pending old.status ≡ false =
      ap (λ (r : Task). is_pending r.status) is ∙ ap is_pending d in
    rw shut (ap some is)

theirs_not_operator :
    (operator : ℕ) (b by : Option ℕ)
    → is_reserved operator ≡ false
    → b ≡ some operator
    → b ≡ by
    → is_subject by ≡ true
    → ⊥
theirs_not_operator operator b by r e f is =
    let named : is_subject (some operator) ≡ true = ap is_subject (sym e ∙ f) ∙ is in ground arith

move-Ruled :
    (operator : ℕ) (state : ConfirmState) (row : Task)
    → is_reserved operator ≡ false
    → (h h' : Hit) (task task' : Option Task) → Standing h task
    → Move h task h' task'
    → Ruled operator state row h task
    → Ruled operator state row h' task'
move-Ruled operator state row name h h' task task' s (kept same e) r = record {
  same_task = e ∙ r.same_task;
  is_decided = r.is_decided;
  by_operator = r.by_operator;
  in_state = same.same_state ∙ r.in_state;
}
move-Ruled operator state row name h h' task task' s (asked new p e f) r = record {
  same_task = f ∙ decided-revised new row task r.same_task r.is_decided;
  is_decided = r.is_decided;
  by_operator = r.by_operator;
  in_state = ap (λ (x : Hit). x.confirm_state) e ∙ r.in_state;
}
move-Ruled operator state row name h h' task task' s
      (triaged severity phash score labels new o p e f) r =
    absurd (decided_not_open h task row s r.same_task r.is_decided o)
move-Ruled operator state row name h h' task task' s (unfetchable new o p e f) r =
    absurd (decided_not_open h task row s r.same_task r.is_decided o)
move-Ruled operator state row name h h' task task' s
      (auto_confirmed now phash score labels new o p e f) r =
    absurd (decided_not_open h task row s r.same_task r.is_decided o)
move-Ruled operator state row name h h' task task' s (held_back phash labels new o p e f) r =
    absurd (decided_not_open h task row s r.same_task r.is_decided o)
move-Ruled operator state row name h h' task task' s (joined source phash o e f) r =
    absurd (decided_not_open h task row s r.same_task r.is_decided o)
move-Ruled operator state row name h h' task task' s
      (overruled now decision other severity old e p q d f g) r =
    let same : old ≡ row = some-injective _ _ (sym e ∙ r.same_task) in
    let clash : pending ≡ decided = sym p ∙ ap (λ (x : Task). x.status) same ∙ r.is_decided in
    absurd (ground arith)
move-Ruled operator state row name h h' task task' s (answered now decision q e f) r =
    let (old, is, by) = ruled-final h task row s r.same_task r.is_decided in
    absurd (theirs_not_operator operator _ _ name r.by_operator by (write-by _ _ old decision q is))

-- In tables with the invariant of Review/Steps/Safety.antt, where an operator has decided the task of a
-- hit under a name of their own: no later transactions of the confirm worker, of operators under names of
-- their own, of the subject or of a search change the hit's state or the task.
pub operator_has_last_word :
    (ops : List Op) (t : Tables) (id operator : ℕ) (h : Hit) (row : Task)
    → All IsNamed ops
    → TablesInv t
    → lookup id t.hits ≡ some h
    → lookup id t.tasks ≡ some row
    → row.status ≡ decided
    → row.decided_by ≡ some operator
    → is_reserved operator ≡ false
    → (h' : Hit) × (lookup id (apply_all ops t).hits ≡ some h')
      × (h'.confirm_state ≡ h.confirm_state)
      × (lookup id (apply_all ops t).tasks ≡ some row)
operator_has_last_word ops t id operator h row n inv e f d b name =
    let (h', e', r) =
      persists (Ruled operator h.confirm_state row) (move-Ruled operator h.confirm_state row name)
        ops t id h n inv e
        (record { same_task = f; is_decided = d; by_operator = b; in_state = refl }) in
    (h', e', r.in_state, r.same_task)
