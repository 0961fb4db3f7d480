-- ===== src/Review/Steps/People.antt =====
-- What operators, subjects and searches do moves a hit and its task as Review/Moves.antt says.
use silver_invention.Review.Moves.Standing.States.{pending-is_pending}
use silver_invention.Review.Moves.Standing.{Standing}
use mathlib.Core.Option.{none-ne-some, some-injective}
use silver_invention.Confirm.Store.{confirm, reject, VerdictKind}
use silver_invention.Prelude.{
  ℕ, ◌≡◌, refl, sym, ap, subst, ◌∙◌, Option, none, some, true, false, [], ◌∷◌, if◌then◌else◌, arith,
  Bool-cases, inl, ◌==◌, inr, ◌⊎◌, ◌&&◌,
}
use silver_invention.Prelude.Dict.{
  Dict, lookup, update, lookup-update, lookup-behind, update-Unique, map_option, Unique,
  lookup-insert, insert,
}
use silver_invention.Confirm.Store.{
  Hit, Task, Tables, Decision, commit_at, passes, is_pending, is_some,
}
use silver_invention.Review.Store.{
  OperatorDecision, ruled, uncertain, decide, record_verdict, lock_task, decide_hit, decide_task,
  rule_on_hit, decide_locked, find_behind, verdict_on, is_quarantined,
}
use silver_invention.Review.Subject.{
  subject_decide, Ruling, hidden, write, answer, follow, subject_on, ruling_of, subject_hit,
  subject_task,
}
use silver_invention.Review.Moves.{overruled, answered, is_reserved, kept}
use silver_invention.Review.Steps.Follows.{
  Follows, same-Follows, write-Follows, rows-Follows, same_columns, NewRow,
}
use silver_invention.Review.Steps.{committed, Severity, add_hit, found_hit}

lookup-update_key :
    {V : Type 0} (id j : ℕ) (f : V → V) (rows : Dict V)
    → lookup j (update id f rows)
      ≡ (if id == j then map_option f (lookup id rows) else lookup j rows)
lookup-update_key id j f rows = elim (Bool-cases (id == j)) [
  | inl e ↦ let is : id ≡ j = ground arith in lookup-update id j f rows ∙ rw (e, is) refl
  | inr e ↦ lookup-update id j f rows ∙ rw e refl
]

locked_here :
    (j id task_id : ℕ) (row task : Task) (rest : Option (ℕ × Task))
    → find_behind j row task_id rest ≡ some (id, task)
    → ((j ≡ id) × (row ≡ task) × (is_pending row.status ≡ true)) ⊎ (rest ≡ some (id, task))
locked_here j id task_id row task rest e =
    elim (Bool-cases (row.task_id == task_id && is_pending row.status)) [
      | inl here ↦
          let found = ap (λ b. if b then some (j, row) else rest) (sym here) ∙ e in
          let both = some-injective _ _ found in
          inl (ap (λ p. p.0) both, ap (λ p. p.1) both, ground arith)
      | inr other ↦ inr (ap (λ b. if b then some (j, row) else rest) (sym other) ∙ e)
    ]

-- The locked row is the pending task of its hit.
lock_task-some :
    (task_id id : ℕ) (task : Task) (tasks : Dict Task)
    → Unique tasks
    → lock_task task_id tasks ≡ some (id, task)
    → (lookup id tasks ≡ some task) × (is_pending task.status ≡ true)
unfolding lock_task
lock_task-some task_id id task [] u e = absurd (none-ne-some _ e)
lock_task-some task_id id task ((j, row) ∷ tasks) (new, u) e =
    elim (locked_here j id task_id row task (lock_task task_id tasks) e) [
      | inl (key, same, is) ↦ (ground arith, subst (λ r. is_pending r.status ≡ true) same is)
      | inr rest ↦
          let (found, is) = lock_task-some task_id id task tasks u rest in
          (lookup-behind id j task row tasks new found, is)
    ]

commit_row :
    {A : Type 0} (row : Hit) (a : A) (t t' : Tables)
    → (passes row ≡ true → Follows t t')
    → Follows t (committed (commit_at row (a, t')) t)
commit_row row a t t' f = elim (Bool-cases (passes row)) [
  | inl e ↦ rw e (f e)
  | inr e ↦ rw e (same-Follows t)
]

-- A decided hit that the CHECKs let through is no duplicate.
passes-decided :
    (now operator : ℕ) (decision : Decision) (severity : Option Severity) (h : Hit)
    → passes (decide_hit now decision operator severity h) ≡ true
    → is_some h.duplicate_of ≡ false
passes-decided now operator confirm severity h e = ground arith
passes-decided now operator reject severity h e = ground arith

ruled-Follows :
    (now operator id : ℕ) (decision : Decision) (severity : Option Severity) (task : Task)
    (o : Option Hit) (t : Tables)
    → is_reserved operator ≡ false
    → Unique t.tasks
    → lookup id t.tasks ≡ some task
    → is_pending task.status ≡ true
    → lookup id t.hits ≡ o
    → Follows t (committed (rule_on_hit now decision operator severity id task o t) t)
ruled-Follows now operator id decision severity task none t r u e is q = same-Follows t
ruled-Follows now operator id decision severity task (some h) t r u e is q =
    commit_row (decide_hit now decision operator severity h) _ t _ (λ fits.
      write-Follows id (decide_hit now decision operator severity) h
        (some (decide_task now decision operator task)) t _ q
        (λ j. lookup-update id j (decide_hit now decision operator severity) t.hits)
        (λ j. lookup-update_key id j (decide_task now decision operator) t.tasks ∙ rw e refl)
        (update-Unique id (decide_task now decision operator) t.tasks)
        (overruled now decision operator severity task e (pending-is_pending _ is) r
          (passes-decided now operator decision severity h fits) refl refl))

locked-Follows :
    (now operator : ℕ) (decision : OperatorDecision) (severity : Option Severity) (task_id : ℕ)
    (o : Option (ℕ × Task)) (t : Tables)
    → is_reserved operator ≡ false
    → Unique t.tasks
    → lock_task task_id t.tasks ≡ o
    → Follows t (committed (decide_locked now decision operator severity o t) t)
locked-Follows now operator decision severity task_id none t r u e = same-Follows t
locked-Follows now operator uncertain severity task_id (some (id, task)) t r u e =
    rows-Follows t _ refl refl
locked-Follows now operator (ruled decision) severity task_id (some (id, task)) t r u e =
    let (found, is) = lock_task-some task_id id task t.tasks u e in
    ruled-Follows now operator id decision severity task (lookup id t.hits) t r u found is refl

pub decide-Follows :
    (now task_id : ℕ) (decision : OperatorDecision) (operator : ℕ) (severity : Option Severity)
    (t : Tables)
    → is_reserved operator ≡ false
    → Unique t.tasks
    → Follows t (committed (decide now task_id decision operator severity t) t)
unfolding decide
decide-Follows now task_id decision operator severity t r u =
    locked-Follows now operator decision severity task_id (lock_task task_id t.tasks) t r u refl

follow-Follows :
    (now id : ℕ) (decision : Decision) (ruling : Ruling) (h : Hit) (t : Tables)
    → lookup id t.hits ≡ some h
    → ruling_of h.confirm_state h.confirm_decided_by decision ≡ ruling
    → Follows t (committed (follow now id decision ruling h t) t)
follow-Follows now id decision hidden h t e r = same-Follows t
follow-Follows now id decision (answer outcome) h t e r = same-Follows t
follow-Follows now id decision write h t e r =
    commit_row (subject_hit now decision h) _ t _ (λ fits.
      write-Follows id (subject_hit now decision) h
        (map_option (subject_task now decision) (lookup id t.tasks)) t _ e
        (λ j. lookup-update id j (subject_hit now decision) t.hits)
        (λ j. lookup-update_key id j (subject_task now decision) t.tasks)
        (update-Unique id (subject_task now decision) t.tasks) (answered now decision r refl refl))

subject_on-Follows :
    (now id user : ℕ) (decision : Decision) (o : Option Hit) (t : Tables)
    → lookup id t.hits ≡ o
    → Follows t (committed (subject_on now id user decision o t) t)
subject_on-Follows now id user decision none t e = same-Follows t
subject_on-Follows now id user decision (some h) t e = elim (Bool-cases (h.user_ref == user)) [
  | inl own ↦ rw own (follow-Follows now id decision _ h t e refl)
  | inr other ↦ rw other (same-Follows t)
]

pub subject_decide-Follows :
    (now id user : ℕ) (decision : Decision) (t : Tables)
    → Follows t (committed (subject_decide now id user decision t) t)
unfolding subject_decide
subject_decide-Follows now id user decision t =
    subject_on-Follows now id user decision (lookup id t.hits) t refl

verdict_on-Follows :
    (id operator : ℕ) (verdict : VerdictKind) (remark : Option ℕ) (o : Option Hit) (t : Tables)
    → Follows t (verdict_on id operator verdict remark o t).1
verdict_on-Follows id operator verdict remark none t = same-Follows t
verdict_on-Follows id operator verdict remark (some h) t =
    elim (Bool-cases (is_quarantined h.confirm_state)) [
      | inl e ↦ rw e (same-Follows t)
      | inr e ↦ rw e (rows-Follows t _ refl refl)
    ]

pub record_verdict-Follows :
    (id operator : ℕ) (verdict : VerdictKind) (remark : Option ℕ) (t : Tables)
    → Follows t (record_verdict id operator verdict remark t).1
unfolding record_verdict
record_verdict-Follows id operator verdict remark t =
    verdict_on-Follows id operator verdict remark (lookup id t.hits) t

found_hit-Standing :
    (user page : ℕ) (image : Option ℕ) (run : ℕ) → Standing (found_hit user page image run) none
found_hit-Standing user page image run = record {
  decider = refl;
  stamped = refl;
  by_machine = λ e. absurd (none-ne-some _ e);
  source = refl;
  queued = refl;
}

pub add_hit-Follows :
    (id user page : ℕ) (image : Option ℕ) (run : ℕ) (o : Option Hit) (t : Tables)
    → lookup id t.hits ≡ o
    → Follows t (record t { hits = add_hit id (found_hit user page image run) o t.hits })
add_hit-Follows id user page image run (some old) t e = rows-Follows t _ refl refl
add_hit-Follows id user page image run none t e = record {
  moves = λ j h q. elim (Bool-cases (id == j)) [
    | inl same ↦
        let is : id ≡ j = ground arith in
        absurd (none-ne-some h (sym (ap (λ k. lookup k t.hits) (sym is) ∙ e) ∙ q))
    | inr other ↦ (
      h,
      lookup-insert id j (found_hit user page image run) t.hits ∙ rw other q,
      kept same_columns refl,
    )
  ];
  no_task = λ j q. refl;
  new_row = λ j q. elim (Bool-cases (id == j)) [
    | inl same ↦
        let at : lookup j (insert id (found_hit user page image run) t.hits)
            ≡ some (found_hit user page image run) =
          lookup-insert id j (found_hit user page image run) t.hits ∙ rw same refl in
        subst (λ o. NewRow o) (sym at) (found_hit-Standing user page image run)
    | inr other ↦
        let at : lookup j (insert id (found_hit user page image run) t.hits) ≡ none =
          lookup-insert id j (found_hit user page image run) t.hits ∙ rw other q in
        subst (λ o. NewRow o) (sym at) tt
  ];
  unique = λ u. u;
}
