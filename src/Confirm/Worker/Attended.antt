-- ===== src/Confirm/Worker/Attended.antt =====
-- No hit is lost: what a handled message leaves behind (imageshield/confirm/worker.py over
-- imageshield/confirm/store.py).
use silver_invention.Review.Steps.Follows.{delete_pending-lookup}
use silver_invention.Review.Moves.{dropped}
use silver_invention.Prelude.{
  ℕ, ◌≡◌, refl, sym, ap, subst, ◌∙◌, ◌⊎◌, inl, inr, Option, none, some, true, false, arith, ◌==◌,
  ◌+◌,
}
use silver_invention.Prelude.Dict.{lookup, update, lookup-update, lookup-insert, insert}
use silver_invention.Confirm.Triage.{Severity, unassessed, ncii_suspected}
use silver_invention.Confirm.Store.{
  TaskStatus, Triage, pending, held, duplicate, quarantined, revised, new_task, open_row, passes,
  commit_at, Hit, Task, Tables, is_open, is_pending, is_some, skipped_for, triage_of,
  unfetchable_for, quarantine_of, auto_confirmed_of, upsert_task,
}
use silver_invention.Confirm.Store.Writes.{
  write_hit, when_open, record_unfetchable, record_triage, record_auto_confirmed, record_quarantine,
  record_duplicate, record_skipped, set_unfetchable, set_triage, set_quarantine, set_auto_confirmed,
  delete_pending, set_duplicate, when_found,
}
use silver_invention.Review.Moves.Standing.{Standing}
use silver_invention.Review.Moves.Standing.Queue.{open-pending}
use silver_invention.Review.Moves.Standing.Kept.{open-none}

-- Joined to another hit, in the queue, or quarantined with its task.
abbrev pub Attended : Hit → Option Task → Type 0
Attended h none = h.confirm_state ≡ duplicate
Attended h (some task) =
    (task.status ≡ pending) ⊎ ((task.status ≡ held) × (h.confirm_state ≡ quarantined))

abbrev pub AttendedAt : ℕ → Tables → Type 0
AttendedAt id t = (h : Hit) × (lookup id t.hits ≡ some h) × Attended h (lookup id t.tasks)

-- The write goes through and leaves the hit attended.
abbrev pub Attends : ℕ → Option Tables → Type 0
Attends id o = (t : Tables) × (o ≡ some t) × AttendedAt id t

open-pending_task :
    (h : Hit) (old : Task)
    → is_open h.confirm_state ≡ true
    → Standing h (some old)
    → is_pending old.status ≡ true
open-pending_task h old o s = ap is_pending (open-pending _ _ _ _ _ o s.queued)

-- The task of a hit that was open takes the status of the upsert.
revised-status :
    (h : Hit) (new : Task) (task : Option Task)
    → is_open h.confirm_state ≡ true
    → Standing h task
    → (revised new task).status ≡ new.status
revised-status h new none o s = refl
revised-status h new (some old) o s = rw (open-pending_task h old o s) refl

module _ (id : ℕ) (h : Hit) (t : Tables) (found : lookup id t.hits ≡ some h)
    (is : is_open h.confirm_state ≡ true) (s : Standing h (lookup id t.tasks)) where
  open_found : open_row (lookup id t.hits) ≡ some h
  open_found = rw (found, is) refl

  written_hit : (f : Hit → Hit) → lookup id (update id f t.hits) ≡ some (f h)
  written_hit f =
      let self : id == id ≡ true = ground arith in
      lookup-update id id f t.hits ∙ rw (self, found) refl

  written-AttendedAt :
      (f : Hit → Hit) (severity : Severity) (triage : Triage) (status : TaskStatus)
      → (status ≡ pending) ⊎ ((status ≡ held) × ((f h).confirm_state ≡ quarantined))
      → AttendedAt id (write_hit id f severity triage status h t)
  written-AttendedAt f severity triage status how =
      let new = new_task t.next_id h severity triage status in
      let self : id == id ≡ true = ground arith in
      let task = revised new (lookup id t.tasks) in
      let at : lookup id (insert id task t.tasks) ≡ some task =
        lookup-insert id id task t.tasks ∙ rw self refl in
      let same : task.status ≡ status = revised-status h new (lookup id t.tasks) is s in
      (
        f h,
        written_hit f,
        subst (λ o. Attended (f h) o) (sym at)
            (elim how [ inl e ↦ inl (same ∙ e) | inr (e, q) ↦ inr (same ∙ e, q) ]),
      )

  -- The write passes the CHECKs.
  Attends-commit :
      (row : Hit) (act : Hit → Option Tables) (t' : Tables)
      → act h ≡ commit_at row t'
      → passes row ≡ true
      → AttendedAt id t'
      → Attends id (when_open (open_row (lookup id t.hits)) t act)
  Attends-commit row act t' e fits attended =
      let done : when_open (open_row (lookup id t.hits)) t act ≡ some t' =
        ap (λ o. when_open o t act) open_found ∙ e ∙ rw fits refl in
      (t', done, attended)

  no_source : is_some h.duplicate_of ≡ false
  no_source = open-none h (lookup id t.tasks) is s

  pub record_unfetchable-Attends : (detail : ℕ) → Attends id (record_unfetchable id detail t)
  unfolding record_unfetchable
  record_unfetchable-Attends detail =
      Attends-commit (set_unfetchable h) _ _ refl (rw no_source refl)
        (written-AttendedAt set_unfetchable unassessed (unfetchable_for detail) pending (inl refl))

  pub record_triage-Attends :
      (severity : Severity) (phash score labels : Option ℕ) (payload : ℕ)
      → Attends id (record_triage id severity phash score labels payload t)
  unfolding record_triage
  record_triage-Attends severity phash score labels payload =
      Attends-commit (set_triage severity phash score labels h) _ _ refl (rw no_source refl) (
        written-AttendedAt (set_triage severity phash score labels) severity (triage_of payload)
          pending (inl refl))

  pub record_auto_confirmed-Attends :
      (now : ℕ) (phash score labels : Option ℕ) (payload : ℕ)
      → Attends id (record_auto_confirmed now id phash score labels payload t)
  unfolding record_auto_confirmed
  record_auto_confirmed-Attends now phash score labels payload =
      Attends-commit (set_auto_confirmed now phash score labels h) _ _ refl (rw no_source refl) (
        written-AttendedAt (set_auto_confirmed now phash score labels) ncii_suspected
          (auto_confirmed_of payload) pending (inl refl))

  pub record_quarantine-Attends :
      (phash : Option ℕ) (labels : ℕ) (age : Option ℕ)
      → Attends id (record_quarantine id phash labels age t)
  unfolding record_quarantine
  record_quarantine-Attends phash labels age =
      Attends-commit (set_quarantine phash labels h) _ _ refl (rw no_source refl) (
        written-AttendedAt (set_quarantine phash labels) ncii_suspected (quarantine_of age) held
          (inr (refl, refl)))

  pub record_skipped-AttendedAt :
      (reason detail : ℕ) → AttendedAt id (record_skipped id reason detail t)
  unfolding record_skipped
  record_skipped-AttendedAt reason detail =
      let new = new_task t.next_id h unassessed (skipped_for reason detail) pending in
      let task = revised new (lookup id t.tasks) in
      let self : id == id ≡ true = ground arith in
      let at : lookup id (insert id task t.tasks) ≡ some task =
        lookup-insert id id task t.tasks ∙ rw self refl in
      let same : task.status ≡ pending = revised-status h new (lookup id t.tasks) is s in
      let here : AttendedAt id
          (record t { next_id = t.next_id + 1; tasks = insert id task t.tasks }) =
        (h, found, subst (λ o. Attended h o) (sym at) (inl same)) in
      let act = λ (row : Hit). record t {
        next_id = t.next_id + 1;
        tasks =
            upsert_task id (new_task t.next_id row unassessed (skipped_for reason detail) pending)
              t.tasks;
      } in
      subst (λ o. AttendedAt id (when_found o t act)) (sym found) here

  dropped-none : dropped (lookup id t.tasks) ≡ none
  dropped-none = no_task_left (lookup id t.tasks) s
    where
      no_task_left : (o : Option Task) → Standing h o → dropped o ≡ none
      no_task_left none q = refl
      no_task_left (some old) q = rw (open-pending_task h old is q) refl

  pub record_duplicate-Attends :
      (source phash : ℕ)
      → is_some (lookup source t.hits) ≡ true
      → Attends id (record_duplicate id source phash t)
  unfolding record_duplicate
  record_duplicate-Attends source phash known =
      let self : id == id ≡ true = ground arith in
      let gone : lookup id (delete_pending id (lookup id t.tasks) t.tasks) ≡ none =
        delete_pending-lookup id id t.tasks (lookup id t.tasks) refl ∙ rw self dropped-none in
      let t' : Tables = record t {
        hits = update id (set_duplicate source phash) t.hits;
        tasks = delete_pending id (lookup id t.tasks) t.tasks;
      } in
      Attends-commit (set_duplicate source phash h) _ t' (rw known refl) refl (
        set_duplicate source phash h,
        written_hit (set_duplicate source phash),
        subst (λ o. Attended (set_duplicate source phash h) o) (sym gone) refl,
      )
