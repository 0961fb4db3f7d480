-- ===== src/Review/Examples.antt =====
-- Hits and their review at concrete inputs.
use silver_invention.Review.Subject.Answers.{AnsweredAt, answer_all, last_answer_counts}
use silver_invention.Prelude.{◌≡◌, refl, none, some, true, List, [], ◌∷◌, All}
use silver_invention.Prelude.Dict.{lookup, update, insert}
use silver_invention.Confirm.Triage.{explicit_unmatched, ncii_suspected}
use silver_invention.Confirm.Store.{Hit, Task, confirm, reject, confirmed, decided, triage_of}
use silver_invention.Confirm.Store.Writes.{
  record_triage, record_quarantine, set_quarantine, set_triage,
}
use silver_invention.Review.Store.{ruled, decide, lock_task, decide_hit, is_quarantined}
use silver_invention.Review.Steps.{
  Op, apply, apply_all, no_rows, discover, quarantine, triage, auto_confirm, skip_hit, rule_on,
  answer_hit, found_hit,
}
use silver_invention.Review.Steps.Safety.{IsNamed, TablesInv, steps-TablesInv}
use silver_invention.Review.Steps.Final.{quarantine_stays, operator_has_last_word}

-- User 9's hit 5 is found, triaged as explicit and unmatched, and confirmed by operator 20.
abbrev reviewed : List Op
reviewed =
    discover 5 9 100 (some 101) 1
    ∷ triage 5 explicit_unmatched (some 77) none (some 3) 4
    ∷ rule_on 60 0 (ruled confirm) 20 (some ncii_suspected)
    ∷ []

reviewed-IsNamed : All IsNamed reviewed
reviewed-IsNamed = (tt, (tt, (refl, tt)))

abbrev held_ops : List Op
held_ops = discover 5 9 100 (some 101) 1 ∷ quarantine 5 (some 77) 3 (some 11) ∷ []

held_ops-IsNamed : All IsNamed held_ops
held_ops-IsNamed = (tt, (tt, tt))

-- A worker that read the hit earlier, an operator, the subject, and a second delivery.
abbrev later : List Op
later =
    skip_hit 5 1 2
    ∷ rule_on 70 0 (ruled reject) 21 none
    ∷ answer_hit 80 5 9 reject
    ∷ auto_confirm 90 5 (some 77) (some 99) (some 3) 4
    ∷ []

later-IsNamed : All IsNamed later
later-IsNamed = (tt, (refl, (tt, (tt, tt))))

abbrev reviewed_hit : Hit
reviewed_hit =
    decide_hit 60 confirm 20 (some ncii_suspected)
      (set_triage explicit_unmatched (some 77) none (some 3) (found_hit 9 100 (some 101) 1))

abbrev held_hit : Hit
held_hit = set_quarantine (some 77) 3 (found_hit 9 100 (some 101) 1)

abbrev reviewed_task : Task
reviewed_task = record {
  task_id = 0;
  user_ref = 9;
  severity = explicit_unmatched;
  triage = triage_of 4;
  status = decided;
  decision = some confirm;
  decided_by = some 20;
  decided_at = some 60;
}

hit_reviewed : lookup 5 (apply_all reviewed no_rows).hits ≡ some reviewed_hit
unfolding apply_all apply record_triage decide lock_task insert update
hit_reviewed = refl

task_reviewed : lookup 5 (apply_all reviewed no_rows).tasks ≡ some reviewed_task
unfolding apply_all apply record_triage decide lock_task insert update
task_reviewed = refl

hit_held : lookup 5 (apply_all held_ops no_rows).hits ≡ some held_hit
unfolding apply_all apply record_quarantine insert update
hit_held = refl

steps-TablesInv_example : TablesInv (apply_all reviewed no_rows)
steps-TablesInv_example = steps-TablesInv reviewed reviewed-IsNamed

quarantine_stays_example :
    (h' : Hit) × (lookup 5 (apply_all later (apply_all held_ops no_rows)).hits ≡ some h')
    × (is_quarantined h'.confirm_state ≡ true)
quarantine_stays_example =
    quarantine_stays later (apply_all held_ops no_rows) 5 held_hit later-IsNamed
      (steps-TablesInv held_ops held_ops-IsNamed) hit_held refl

operator_has_last_word_example :
    (h' : Hit) × (lookup 5 (apply_all later (apply_all reviewed no_rows)).hits ≡ some h')
    × (h'.confirm_state ≡ confirmed)
    × (lookup 5 (apply_all later (apply_all reviewed no_rows)).tasks ≡ some reviewed_task)
operator_has_last_word_example =
    operator_has_last_word later (apply_all reviewed no_rows) 5 20 reviewed_hit reviewed_task
      later-IsNamed (steps-TablesInv reviewed reviewed-IsNamed) hit_reviewed task_reviewed refl refl
      refl

found_first :
    lookup 5 (apply_all (discover 5 9 100 (some 101) 1 ∷ []) no_rows).hits
    ≡ some (found_hit 9 100 (some 101) 1)
unfolding apply_all apply insert
found_first = refl

-- Rejected, and then confirmed after all.
last_answer_counts_example : AnsweredAt 5 9 confirm (
    answer_all 5 9
      ((60, reject) ∷ (70, confirm) ∷ [])
      (apply_all (discover 5 9 100 (some 101) 1 ∷ []) no_rows))
last_answer_counts_example =
    last_answer_counts 5 9 ((60, reject) ∷ []) 70 confirm (found_hit 9 100 (some 101) 1)
      (apply_all (discover 5 9 100 (some 101) 1 ∷ []) no_rows) found_first refl refl refl refl
