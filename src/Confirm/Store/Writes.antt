-- ===== src/Confirm/Store/Writes.antt =====
-- The methods of PostgresConfirmStore (imageshield/confirm/store.py): the guarded transitions of a hit
-- that is still open to the machine, with its review task, and the two writes without a guard.
use silver_invention.Confirm.Store.{
  Hit, Task, is_final, is_pending, Triage, Tables, confirmed, duplicate, quarantined,
  machine_triaged, upsert_task, auto_text, TaskStatus, open_hit, auto_confirmed_of, commit_at,
  new_task, is_some, quarantine_of, triage_of, held, skipped_for, unfetchable_for, pending,
  quarantined_row, auto_confirmed_row,
}
use silver_invention.Prelude.{
  ltb, ℕ, Option, none, some, ◌&&◌, List, [], ◌∷◌, if◌then◌else◌, ◌==◌, ◌+◌,
}
use silver_invention.Prelude.Dict.{Dict, lookup, update, erase}
use silver_invention.Confirm.Triage.{Severity, ncii_suspected, unassessed}

-- The statements' SET lists.
abbrev pub set_duplicate : ℕ → ℕ → Hit → Hit
set_duplicate source phash h = record h {
  confirm_state = duplicate;
  duplicate_of = some source;
  phash = some phash;
}

abbrev pub set_quarantine : Option ℕ → ℕ → Hit → Hit
set_quarantine phash labels h = record h {
  confirm_state = quarantined;
  phash = phash;
  moderation_labels = some labels;
}

abbrev pub set_triage : Severity → Option ℕ → Option ℕ → Option ℕ → Hit → Hit
set_triage severity phash score labels h = record h {
  confirm_state = machine_triaged;
  severity = some severity;
  phash = phash;
  face_match_score = score;
  moderation_labels = labels;
}

abbrev pub set_auto_confirmed : ℕ → Option ℕ → Option ℕ → Option ℕ → Hit → Hit
set_auto_confirmed now phash score labels h = record h {
  confirm_state = confirmed;
  severity = some ncii_suspected;
  phash = phash;
  face_match_score = score;
  moderation_labels = labels;
  confirm_decided_by = some auto_text;
  confirm_decided_at = some now;
}

abbrev pub set_unfetchable : Hit → Hit
set_unfetchable h = record h { confirm_state = machine_triaged; severity = some unassessed }

abbrev pub set_preview : ℕ → Hit → Hit
set_preview url h = record h { preview_image_url = some url }

-- DELETE … WHERE status = 'pending'
abbrev pub delete_pending : ℕ → Option Task → Dict Task → Dict Task
delete_pending id none tasks = tasks
delete_pending id (some task) tasks = if is_pending task.status then erase id tasks else tasks

-- The guarded UPDATE of a hit that is open, and the upsert of its task.
abbrev pub write_hit : ℕ → (Hit → Hit) → Severity → Triage → TaskStatus → Hit → Tables → Tables
write_hit id f severity triage status h t = record t {
  next_id = t.next_id + 1;
  hits = update id f t.hits;
  tasks = upsert_task id (new_task t.next_id h severity triage status) t.tasks;
}

-- Nothing is written where the guarded UPDATE finds no row.
abbrev pub when_open : Option Hit → Tables → (Hit → Option Tables) → Option Tables
when_open none t act = some t
when_open (some h) t act = act h

abbrev pub when_found : Option Hit → Tables → (Hit → Tables) → Tables
when_found none t act = t
when_found (some h) t act = act h

unfoldable pub record_duplicate : ℕ → ℕ → ℕ → Tables → Option Tables
record_duplicate id source phash t = when_open (open_hit id t.hits) t (λ h.
    if is_some (lookup source t.hits)
    then commit_at (set_duplicate source phash h) (record t {
      hits = update id (set_duplicate source phash) t.hits;
      tasks = delete_pending id (lookup id t.tasks) t.tasks;
    })
    else none)

unfoldable pub record_quarantine : ℕ → Option ℕ → ℕ → Option ℕ → Tables → Option Tables
record_quarantine id phash labels min_age_low t = when_open (open_hit id t.hits) t (λ h.
    let t' =
      write_hit id (set_quarantine phash labels) ncii_suspected (quarantine_of min_age_low) held h
        t in
    commit_at (set_quarantine phash labels h)
      (record t' { audit_log = quarantined_row h.user_ref id min_age_low ∷ t'.audit_log }))

unfoldable pub record_triage :
    ℕ → Severity → Option ℕ → Option ℕ → Option ℕ → ℕ → Tables → Option Tables
record_triage id severity phash score labels triage t = when_open (open_hit id t.hits) t (λ h.
    commit_at (set_triage severity phash score labels h) (
      write_hit id (set_triage severity phash score labels) severity (triage_of triage) pending h
        t))

unfoldable pub record_auto_confirmed :
    ℕ → ℕ → Option ℕ → Option ℕ → Option ℕ → ℕ → Tables → Option Tables
record_auto_confirmed now id phash score labels triage t = when_open (open_hit id t.hits) t (λ h.
    let t' =
      write_hit id (set_auto_confirmed now phash score labels) ncii_suspected
        (auto_confirmed_of triage) pending h t in
    commit_at (set_auto_confirmed now phash score labels h)
      (record t' { audit_log = auto_confirmed_row h.user_ref id score ∷ t'.audit_log }))

unfoldable pub record_unfetchable : ℕ → ℕ → Tables → Option Tables
record_unfetchable id detail t = when_open (open_hit id t.hits) t (λ h.
    commit_at (set_unfetchable h)
      (write_hit id set_unfetchable unassessed (unfetchable_for detail) pending h t))

unfoldable pub record_preview_image_url : ℕ → ℕ → Tables → Tables
record_preview_image_url id url t = record t { hits = update id (set_preview url) t.hits }

-- No guard on the hit's state: the hit's own columns stay.
unfoldable pub record_skipped : ℕ → ℕ → ℕ → Tables → Tables
record_skipped id reason detail t = when_found (lookup id t.hits) t (λ h. record t {
  next_id = t.next_id + 1;
  tasks =
      upsert_task id (new_task t.next_id h unassessed (skipped_for reason detail) pending) t.tasks;
})

-- ORDER BY infringement_id
unfoldable pub insert_by_id : ℕ × ℕ → List (ℕ × ℕ) → List (ℕ × ℕ)
insert_by_id hit [] = hit ∷ []
insert_by_id hit (first ∷ hits) =
    let rest = insert_by_id hit hits in
    if ltb first.0 hit.0 then first ∷ rest else hit ∷ first ∷ hits

-- phash IS NOT NULL
abbrev pub with_phash : ℕ → Option ℕ → List (ℕ × ℕ) → List (ℕ × ℕ)
with_phash id none rest = rest
with_phash id (some phash) rest = insert_by_id (id, phash) rest

-- _DECIDED_PHASHES_SQL
unfoldable pub decided_phashes : ℕ → Dict Hit → List (ℕ × ℕ)
decided_phashes user [] = []
decided_phashes user ((id, h) ∷ hits) =
    let rest = decided_phashes user hits in
    if h.user_ref == user && is_final h.confirm_state then with_phash id h.phash rest else rest
