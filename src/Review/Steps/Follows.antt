-- ===== src/Review/Steps/Follows.antt =====
-- One transaction of Review/Steps.antt moves each hit and its task as Review/Moves.antt says.
use silver_invention.Confirm.Store.Writes.{delete_pending}
use silver_invention.Review.Steps.{or_before}
use silver_invention.Confirm.Store.{
  Hit, Task, Tables, commit_at, passes, is_open, is_pending, open_row,
}
use silver_invention.Prelude.{
  ℕ, ◌≡◌, refl, sym, ap, subst, ◌∙◌, Option, none, some, true, false, if◌then◌else◌, arith,
  Bool-cases, ◌==◌, inl, inr,
}
use mathlib.Core.Option.{none-ne-some, some-injective}
use silver_invention.Prelude.Dict.{Dict, lookup, map_option, Unique, lookup-erase}
use silver_invention.Review.Moves.{Move, kept, dropped, SameStanding}
use silver_invention.Review.Moves.Standing.{Standing}

-- A hit that was not there before has been found and is in no queue.
abbrev pub NewRow : Option Hit → Type 0
NewRow none = Unit
NewRow (some h) = Standing h none

pub record Follows (t t' : Tables) : Type 0 where
  pub moves :
      (id : ℕ) (h : Hit)
      → lookup id t.hits ≡ some h
      → (h' : Hit) × (lookup id t'.hits ≡ some h')
        × Move h (lookup id t.tasks) h' (lookup id t'.tasks)
  pub no_task : (id : ℕ) → lookup id t.hits ≡ none → lookup id t'.tasks ≡ lookup id t.tasks
  pub new_row : (id : ℕ) → lookup id t.hits ≡ none → NewRow (lookup id t'.hits)
  pub unique : Unique t.tasks → Unique t'.tasks

pub same_columns : {h : Hit} → SameStanding h h
same_columns = record {
  same_state = refl;
  same_by = refl;
  same_at = refl;
  same_severity = refl;
  same_source = refl;
}

same : (h : Hit) (task : Option Task) → Move h task h task
same h task = kept same_columns refl

-- Other rows than hits and tasks may change.
pub rows-Follows : (t t' : Tables) → t'.hits ≡ t.hits → t'.tasks ≡ t.tasks → Follows t t'
rows-Follows t t' e f = record {
  moves = λ id h q. (
    h,
    ap (λ d. lookup id d) e ∙ q,
    subst (λ d. Move h (lookup id t.tasks) h (lookup id d)) (sym f) (same h (lookup id t.tasks)),
  );
  no_task = λ id q. ap (λ d. lookup id d) f;
  new_row = λ id q. subst (λ o. NewRow o) (sym (ap (λ d. lookup id d) e ∙ q)) tt;
  unique = λ u. subst (λ d. Unique d) (sym f) u;
}

pub same-Follows : (t : Tables) → Follows t t
same-Follows t = rows-Follows t t refl refl

-- A write of one hit and its task.
module _ (id : ℕ) (f : Hit → Hit) (h : Hit) (task' : Option Task) (t t' : Tables) where
  abbrev MovesAt : ℕ → Type 0
  MovesAt j =
      (row : Hit)
      → lookup j t.hits ≡ some row
      → (h' : Hit) × (lookup j t'.hits ≡ some h')
        × Move row (lookup j t.tasks) h' (lookup j t'.tasks)

  abbrev Wrote : Type 0
  Wrote =
      (j : ℕ)
      → lookup j t'.hits ≡ (if id == j then map_option f (lookup j t.hits) else lookup j t.hits)

  written_here :
      lookup id t.hits ≡ some h
      → Wrote
      → ((j : ℕ) → lookup j t'.tasks ≡ (if id == j then task' else lookup j t.tasks))
      → Move h (lookup id t.tasks) (f h) task'
      → MovesAt id
  written_here found wrote tasks move row q =
      let is : h ≡ row = some-injective _ _ (sym found ∙ q) in
      let self : id == id ≡ true = ground arith in
      let at_hit : lookup id t'.hits ≡ some (f h) = wrote id ∙ rw (self, found) refl in
      let at_task : lookup id t'.tasks ≡ task' = tasks id ∙ rw self refl in
      (
        f h,
        at_hit,
        subst (λ r. Move r (lookup id t.tasks) (f h) (lookup id t'.tasks)) is
            (subst (λ o. Move h (lookup id t.tasks) (f h) o) (sym at_task) move),
      )

  written_there :
      (j : ℕ)
      → id == j ≡ false
      → Wrote
      → ((j : ℕ) → lookup j t'.tasks ≡ (if id == j then task' else lookup j t.tasks))
      → MovesAt j
  written_there j other wrote tasks row q =
      let at_hit : lookup j t'.hits ≡ some row = wrote j ∙ rw other q in
      let at_task : lookup j t'.tasks ≡ lookup j t.tasks = tasks j ∙ rw other refl in
      (row, at_hit, subst (λ o. Move row (lookup j t.tasks) row o) (sym at_task) (same row _))

  pub write-Follows :
      lookup id t.hits ≡ some h
      → Wrote
      → ((j : ℕ) → lookup j t'.tasks ≡ (if id == j then task' else lookup j t.tasks))
      → (Unique t.tasks → Unique t'.tasks)
      → Move h (lookup id t.tasks) (f h) task'
      → Follows t t'
  write-Follows found wrote tasks unique move = record {
    moves = λ j. elim (Bool-cases (id == j)) [
      | inl e ↦
          let is : id ≡ j = ground arith in
          subst (λ k. MovesAt k) is (written_here found wrote tasks move)
      | inr e ↦ written_there j e wrote tasks
    ];
    no_task = λ j q. elim (Bool-cases (id == j)) [
      | inl e ↦
          let is : id ≡ j = ground arith in
          absurd (none-ne-some h (sym (ap (λ k. lookup k t.hits) is ∙ q) ∙ found))
      | inr e ↦ tasks j ∙ rw e refl
    ];
    new_row = λ j q.
        let gone : lookup j t'.hits ≡ none = wrote j ∙ rw q (ground arith) in
        subst (λ o. NewRow o) (sym gone) tt;
    unique = unique;
  }

pub commit-Follows :
    (row : Hit) (t t' : Tables) → Follows t t' → Follows t (or_before (commit_at row t') t)
commit-Follows row t t' f = elim (Bool-cases (passes row)) [
  | inl e ↦ rw e f
  | inr e ↦ rw e (same-Follows t)
]

pub open_row-some :
    (o : Option Hit) (h : Hit)
    → open_row o ≡ some h
    → (o ≡ some h) × (is_open h.confirm_state ≡ true)
open_row-some none h e = absurd (none-ne-some h e)
open_row-some (some row) h e = elim (Bool-cases (is_open row.confirm_state)) [
  | inl is ↦
      let same_row : row ≡ h =
        some-injective _ _ (ap (λ b. if b then some row else none) (sym is) ∙ e) in
      (ap some same_row, ap (λ (r : Hit). is_open r.confirm_state) (sym same_row) ∙ is)
  | inr other ↦ absurd (none-ne-some h (ap (λ b. if b then some row else none) (sym other) ∙ e))
]

same_task_key :
    (id j : ℕ) (tasks : Dict Task) (o : Option Task)
    → lookup id tasks ≡ o
    → lookup j tasks ≡ (if id == j then o else lookup j tasks)
same_task_key id j tasks o e = ground arith

pub delete_pending-lookup :
    (id j : ℕ) (tasks : Dict Task) (o : Option Task)
    → lookup id tasks ≡ o
    → lookup j (delete_pending id o tasks) ≡ (if id == j then dropped o else lookup j tasks)
delete_pending-lookup id j tasks none e = same_task_key id j tasks none e
delete_pending-lookup id j tasks (some task) e = elim (Bool-cases (is_pending task.status)) [
  | inl is ↦ rw is (lookup-erase id j tasks)
  | inr other ↦ rw other (same_task_key id j tasks (some task) e)
]
