-- ===== src/Review/Steps/Safety.antt =====
-- Any sequence of the transactions of Review/Steps.antt: what holds of every hit and its task, and that
-- a quarantine and an operator's decision are final.
use silver_invention.Review.Moves.{is_reserved}
use silver_invention.Prelude.{
  ℕ, ◌≡◌, refl, sym, subst, ◌∙◌, none, some, false, List, [], ◌∷◌, Option-cases, All, inl, inr,
}
use mathlib.Core.Option.{none-ne-some, some-injective}
use silver_invention.Prelude.Dict.{lookup, Unique}
use silver_invention.Review.Moves.Standing.{Standing}
use silver_invention.Review.Moves.Standing.Kept.{move-Standing}
use silver_invention.Review.Steps.Follows.{Follows, NewRow}
use silver_invention.Review.Steps.Machine.{
  record_duplicate-Follows, record_quarantine-Follows, record_triage-Follows,
  record_auto_confirmed-Follows, record_unfetchable-Follows, record_preview_image_url-Follows,
  record_skipped-Follows, kept_hits,
}
use silver_invention.Review.Steps.People.{
  decide-Follows, subject_decide-Follows, record_verdict-Follows, add_hit-Follows,
}
use silver_invention.Review.Steps.{
  Op, apply, apply_all, no_rows, set_signal, discover, touch_hit, join, quarantine, triage,
  auto_confirm, give_up, preview, skip_hit, rule_on, answer_hit, label, Tables, Hit,
}

-- An operator decides under a name of their own.
abbrev pub IsNamed : Op → Type 0
IsNamed (rule_on now task decision operator severity) = is_reserved operator ≡ false
IsNamed (discover id user page image run) = Unit
IsNamed (touch_hit id status run) = Unit
IsNamed (join id source phash) = Unit
IsNamed (quarantine id phash labels age) = Unit
IsNamed (triage id severity phash score labels payload) = Unit
IsNamed (auto_confirm now id phash score labels payload) = Unit
IsNamed (give_up id detail) = Unit
IsNamed (preview id url) = Unit
IsNamed (skip_hit id reason detail) = Unit
IsNamed (answer_hit now id user decision) = Unit
IsNamed (label id operator verdict remark) = Unit

pub record TablesInv (t : Tables) : Type 0 where
  pub standing : (id : ℕ) (h : Hit) → lookup id t.hits ≡ some h → Standing h (lookup id t.tasks)
  pub no_orphan : (id : ℕ) → lookup id t.hits ≡ none → lookup id t.tasks ≡ none
  pub unique : Unique t.tasks

pub apply-Follows : (op : Op) (t : Tables) → IsNamed op → Unique t.tasks → Follows t (apply op t)
unfolding apply
apply-Follows (discover id user page image run) t n u =
    add_hit-Follows id user page image run (lookup id t.hits) t refl
apply-Follows (touch_hit id status run) t n u = kept_hits id (set_signal status run) t (λ h.
    record {
      same_state = refl;
      same_by = refl;
      same_at = refl;
      same_severity = refl;
      same_source = refl;
    })
apply-Follows (join id source phash) t n u = record_duplicate-Follows id source phash t
apply-Follows (quarantine id phash labels age) t n u =
    record_quarantine-Follows id phash labels age t
apply-Follows (triage id severity phash score labels payload) t n u =
    record_triage-Follows id severity phash score labels payload t
apply-Follows (auto_confirm now id phash score labels payload) t n u =
    record_auto_confirmed-Follows now id phash score labels payload t
apply-Follows (give_up id detail) t n u = record_unfetchable-Follows id detail t
apply-Follows (preview id url) t n u = record_preview_image_url-Follows id url t
apply-Follows (skip_hit id reason detail) t n u = record_skipped-Follows id reason detail t
apply-Follows (rule_on now task decision operator severity) t n u =
    decide-Follows now task decision operator severity t n u
apply-Follows (answer_hit now id user decision) t n u =
    subject_decide-Follows now id user decision t
apply-Follows (label id operator verdict remark) t n u =
    record_verdict-Follows id operator verdict remark t

Follows-TablesInv : (t t' : Tables) → Follows t t' → TablesInv t → TablesInv t'
Follows-TablesInv t t' f inv = record {
  standing = λ id h e. elim (Option-cases (lookup id t.hits)) [
    | inl q ↦
        let new : NewRow (some h) = subst (λ o. NewRow o) e (f.new_row id q) in
        let gone : lookup id t'.tasks ≡ none = f.no_task id q ∙ inv.no_orphan id q in
        subst (λ o. Standing h o) (sym gone) new
    | inr (old, q) ↦
        let (h', e', move) = f.moves id old q in
        let is : h' ≡ h = some-injective _ _ (sym e' ∙ e) in
        subst (λ r. Standing r (lookup id t'.tasks)) is
          (move-Standing old h' _ _ move (inv.standing id old q))
  ];
  no_orphan = λ id e. elim (Option-cases (lookup id t.hits)) [
    | inl q ↦ f.no_task id q ∙ inv.no_orphan id q
    | inr (old, q) ↦ let (h', e', move) = f.moves id old q in absurd (none-ne-some h' (sym e ∙ e'))
  ];
  unique = f.unique inv.unique;
}

pub apply-TablesInv : (op : Op) (t : Tables) → IsNamed op → TablesInv t → TablesInv (apply op t)
apply-TablesInv op t n inv = Follows-TablesInv t (apply op t) (apply-Follows op t n inv.unique) inv

apply_all-TablesInv :
    (ops : List Op) (t : Tables) → All IsNamed ops → TablesInv t → TablesInv (apply_all ops t)
unfolding apply_all
apply_all-TablesInv [] t n inv = inv
apply_all-TablesInv (op ∷ ops) t (n, ns) inv =
    apply_all-TablesInv ops (apply op t) ns (apply-TablesInv op t n inv)

no_rows-TablesInv : TablesInv no_rows
no_rows-TablesInv = record {
  standing = λ id h e. absurd (none-ne-some h e);
  no_orphan = λ id e. refl;
  unique = tt;
}

-- After any transactions of the confirm worker, operators, subjects and searches on empty tables, in any
-- order, with any of them rolled back, and operators that decide under names of their own: a hit has a
-- decider and a time exactly if it is confirmed or rejected; what the machine has confirmed is a
-- suspected intimate image; a hit has a source exactly if it is a duplicate; a decided task has the
-- hit's state and decider; a hit is quarantined exactly if its task is; and no task is without a hit.
pub steps-TablesInv : (ops : List Op) → All IsNamed ops → TablesInv (apply_all ops no_rows)
steps-TablesInv ops n = apply_all-TablesInv ops no_rows n no_rows-TablesInv
