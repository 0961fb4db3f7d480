-- ===== src/Review/Steps/Machine.antt =====
-- The confirm worker's transactions move a hit and its task as Review/Moves.antt says.
use silver_invention.Confirm.Triage.{ncii_suspected, unassessed}
use silver_invention.Prelude.{
  ℕ, ◌≡◌, refl, sym, subst, ◌∙◌, Option, none, some, Bool, true, false, List, if◌then◌else◌, arith,
  Bool-cases, Option-cases, inl, inr, ◌==◌,
}
use silver_invention.Prelude.Dict.{
  Dict, lookup, update, lookup-insert, insert-Unique, erase-Unique, Unique, lookup-update,
  map_option,
}
use silver_invention.Confirm.Store.{
  TaskStatus, pending, held, revised, new_task, Triage, open_hit, is_open, commit_at, Hit, Tables,
  Audit, Task, is_pending, triage_of, unfetchable_for, auto_confirmed_of, quarantine_of, is_some,
  skipped_for,
}
use silver_invention.Confirm.Store.Writes.{
  record_duplicate, record_quarantine, record_triage, record_auto_confirmed, record_unfetchable,
  record_preview_image_url, record_skipped, write_hit, set_triage, delete_pending, set_unfetchable,
  set_quarantine, set_auto_confirmed, when_found, set_preview, set_duplicate, when_open,
}
use silver_invention.Review.Moves.{
  Move, kept, asked, triaged, unfetchable, auto_confirmed, held_back, joined, SameStanding, dropped,
}
use silver_invention.Review.Steps.Follows.{
  Follows, same-Follows, write-Follows, commit-Follows, open_row-some, delete_pending-lookup,
  same_columns, NewRow,
}
use silver_invention.Review.Steps.{or_before, Severity}

pub audited :
    (t t' : Tables) (log : List Audit) → Follows t t' → Follows t (record t' { audit_log = log })
audited t t' log f = record {
  moves = f.moves;
  no_task = f.no_task;
  new_row = f.new_row;
  unique = f.unique;
}

-- The move of an open hit to `f h`, with its task.
abbrev OpenMove : ℕ → (Hit → Hit) → Severity → Triage → TaskStatus → Tables → Type 0
OpenMove id f severity triage status t =
    (h : Hit)
    → is_open h.confirm_state ≡ true
    → Move h (lookup id t.tasks) (f h)
        (some (revised (new_task t.next_id h severity triage status) (lookup id t.tasks)))

written-Follows :
    (id : ℕ) (f : Hit → Hit) (severity : Severity) (triage : Triage) (status : TaskStatus) (h : Hit)
    (t : Tables)
    → open_hit id t.hits ≡ some h
    → OpenMove id f severity triage status t
    → Follows t (write_hit id f severity triage status h t)
written-Follows id f severity triage status h t e move =
    let (found, is) = open_row-some _ h e in
    let new = revised (new_task t.next_id h severity triage status) (lookup id t.tasks) in
    write-Follows id f h (some new) t _ found (λ j. lookup-update id j f t.hits)
      (λ j. lookup-insert id j new t.tasks) (insert-Unique id new t.tasks) (move h is)

open-Follows :
    (o : Option Hit) (t : Tables) (act : Hit → Option Tables)
    → ((h : Hit) → o ≡ some h → Follows t (or_before (act h) t))
    → Follows t (or_before (when_open o t act) t)
open-Follows none t act f = same-Follows t
open-Follows (some h) t act f = f h refl

found-Follows :
    (o : Option Hit) (t : Tables) (act : Hit → Tables)
    → ((h : Hit) → o ≡ some h → Follows t (act h))
    → Follows t (when_found o t act)
found-Follows none t act f = same-Follows t
found-Follows (some h) t act f = f h refl

pub record_triage-Follows :
    (id : ℕ) (severity : Severity) (phash score labels : Option ℕ) (payload : ℕ) (t : Tables)
    → Follows t (or_before (record_triage id severity phash score labels payload t) t)
unfolding record_triage
record_triage-Follows id severity phash score labels payload t = open-Follows _ t _ (λ h e.
    commit-Follows (set_triage severity phash score labels h) t _ (
      written-Follows id (set_triage severity phash score labels) severity (triage_of payload)
        pending h t e (λ h is. triaged severity phash score labels _ is refl refl refl)))

pub record_unfetchable-Follows :
    (id detail : ℕ) (t : Tables) → Follows t (or_before (record_unfetchable id detail t) t)
unfolding record_unfetchable
record_unfetchable-Follows id detail t = open-Follows _ t _ (λ h e.
    commit-Follows (set_unfetchable h) t _ (
      written-Follows id set_unfetchable unassessed (unfetchable_for detail) pending h t e
        (λ h is. unfetchable _ is refl refl refl)))

pub record_auto_confirmed-Follows :
    (now id : ℕ) (phash score labels : Option ℕ) (payload : ℕ) (t : Tables)
    → Follows t (or_before (record_auto_confirmed now id phash score labels payload t) t)
unfolding record_auto_confirmed
record_auto_confirmed-Follows now id phash score labels payload t = open-Follows _ t _ (λ h e.
    commit-Follows (set_auto_confirmed now phash score labels h) t _ (
      audited t _ _ (
        written-Follows id (set_auto_confirmed now phash score labels) ncii_suspected
          (auto_confirmed_of payload) pending h t e
          (λ h is. auto_confirmed now phash score labels _ is refl refl refl))))

pub record_quarantine-Follows :
    (id : ℕ) (phash : Option ℕ) (labels : ℕ) (age : Option ℕ) (t : Tables)
    → Follows t (or_before (record_quarantine id phash labels age t) t)
unfolding record_quarantine
record_quarantine-Follows id phash labels age t = open-Follows _ t _ (λ h e.
    commit-Follows (set_quarantine phash labels h) t _ (
      audited t _ _ (
        written-Follows id (set_quarantine phash labels) ncii_suspected (quarantine_of age) held h t
          e (λ h is. held_back phash labels _ is refl refl refl))))

delete_pending-Unique :
    (id : ℕ) (o : Option Task) (tasks : Dict Task)
    → Unique tasks
    → Unique (delete_pending id o tasks)
delete_pending-Unique id none tasks u = u
delete_pending-Unique id (some task) tasks u = elim (Bool-cases (is_pending task.status)) [
  | inl e ↦ rw e (erase-Unique id tasks u)
  | inr e ↦ rw e u
]

if-Follows :
    (b : Bool) (t : Tables) (o : Option Tables)
    → Follows t (or_before o t)
    → Follows t (or_before (if b then o else none) t)
if-Follows true t o f = f
if-Follows false t o f = same-Follows t

pub record_duplicate-Follows :
    (id source phash : ℕ) (t : Tables)
    → Follows t (or_before (record_duplicate id source phash t) t)
unfolding record_duplicate
record_duplicate-Follows id source phash t = open-Follows _ t _ (λ h e.
    let (found, is) = open_row-some _ h e in
    let t' : Tables = record t {
      hits = update id (set_duplicate source phash) t.hits;
      tasks = delete_pending id (lookup id t.tasks) t.tasks;
    } in
    if-Follows (is_some (lookup source t.hits)) t (commit_at (set_duplicate source phash h) t') (
      commit-Follows (set_duplicate source phash h) t t' (
        write-Follows id (set_duplicate source phash) h (dropped (lookup id t.tasks)) t t' found
          (λ j. lookup-update id j (set_duplicate source phash) t.hits)
          (λ j. delete_pending-lookup id j t.tasks (lookup id t.tasks) refl)
          (delete_pending-Unique id (lookup id t.tasks) t.tasks)
          (joined source phash is refl refl))))

same_row :
    (id j : ℕ) (hits : Dict Hit)
    → lookup j hits ≡ (if id == j then map_option (λ h. h) (lookup j hits) else lookup j hits)
same_row id j hits = elim (Option-cases (lookup j hits)) [
  | inl e ↦ rw e (ground arith)
  | inr (h, e) ↦ rw e (ground arith)
]

-- An update of columns that no decision is about.
pub kept_hits :
    (id : ℕ) (f : Hit → Hit) (t : Tables)
    → ((h : Hit) → SameStanding h (f h))
    → Follows t (record t { hits = update id f t.hits })
kept_hits id f t same = record {
  moves = λ j row q. elim (Bool-cases (id == j)) [
    | inl e ↦ (f row, rw (lookup-update id j f t.hits, e, q) refl, kept (same row) refl)
    | inr e ↦ (row, rw (lookup-update id j f t.hits, e) q, kept same_columns refl)
  ];
  no_task = λ j q. refl;
  new_row = λ j q.
      let gone : lookup j (update id f t.hits) ≡ none =
        lookup-update id j f t.hits ∙ rw q (ground arith) in
      subst (λ o. NewRow o) (sym gone) tt;
  unique = λ u. u;
}

pub record_preview_image_url-Follows :
    (id url : ℕ) (t : Tables) → Follows t (record_preview_image_url id url t)
unfolding record_preview_image_url
record_preview_image_url-Follows id url t = kept_hits id (set_preview url) t (λ h. record {
  same_state = refl;
  same_by = refl;
  same_at = refl;
  same_severity = refl;
  same_source = refl;
})

pub record_skipped-Follows :
    (id reason detail : ℕ) (t : Tables) → Follows t (record_skipped id reason detail t)
unfolding record_skipped
record_skipped-Follows id reason detail t = found-Follows _ t _ (λ h e.
    let new = new_task t.next_id h unassessed (skipped_for reason detail) pending in
    let task = revised new (lookup id t.tasks) in
    write-Follows id (λ row. row) h (some task) t _ e (λ j. same_row id j t.hits)
      (λ j. lookup-insert id j task t.tasks) (insert-Unique id task t.tasks)
      (asked new refl refl refl))
