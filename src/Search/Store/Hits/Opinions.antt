-- ===== src/Search/Store/Hits/Opinions.antt =====
-- What a hit's status is after its users' feedback (record_feedback of imageshield/search/store.py).
use silver_invention.Search.Store.Hits.Rows.{lookup-update_other}
use silver_invention.Search.Store.Hits.{
  record_feedback, set_status, status_for, apply_signal, owned, add_feedback, give_feedback,
}
use silver_invention.Prelude.{
  ℕ, ◌≡◌, ◌≢◌, refl, subst, Option, none, some, List, [], ◌∷◌, ◌==◌, if◌then◌else◌, Bool-cases, inl,
  inr, arith, ◌∙◌,
}
use silver_invention.Prelude.Dict.{Dict, lookup, update, lookup-update}
use silver_invention.Search.Store.{
  not_me, confirmed, uncertain, is_authorised, resolved, Tables, Signal, HitStatus, Infringement,
  Feedback, dismissed_not_me, acknowledged, authorised, user_resolved,
}

-- Feedback on one hit, the first first: who says what.
pub give_all : ℕ → List (ℕ × Signal) → Tables → Tables
give_all id [] t = t
give_all id ((user, signal) ∷ said) t = give_all id said (record_feedback id user signal t).1

-- What one signal of the owner makes of the status.
abbrev pub after_signal : Signal → HitStatus → HitStatus
after_signal not_me status = dismissed_not_me
after_signal confirmed status = acknowledged
after_signal uncertain status = status
after_signal is_authorised status = authorised
after_signal resolved status = user_resolved

-- The status that the owner's signals lead to.
abbrev pub opinion : ℕ → List (ℕ × Signal) → HitStatus → HitStatus
opinion owner [] status = status
opinion owner ((user, signal) ∷ said) status =
    opinion owner said (if owner == user then after_signal signal status else status)

-- The rows of the owner's signals, the last first, before those that were there.
abbrev pub appended : ℕ → ℕ → List (ℕ × Signal) → List Feedback → List Feedback
appended id owner [] rows = rows
appended id owner ((user, signal) ∷ said) rows = appended id owner said (
    if owner == user
    then record { infringement_id = id; user_ref = user; signal = signal } ∷ rows
    else rows)

-- One hit of the tables with another status, and feedback added; all else is as it was.
pub record Judged (id : ℕ) (row : Infringement) (status : HitStatus) (rows : List Feedback)
    (t t' : Tables) : Type 0 where
  pub judged : lookup id t'.infringements ≡ some (record row { status = status })
  pub others : (i : ℕ) → id ≢ i → lookup i t'.infringements ≡ lookup i t.infringements
  pub recorded : t'.feedback ≡ rows
  pub same_attestations : t'.attestations ≡ t.attestations
  pub same_runs : t'.runs ≡ t.runs
  pub same_outbox : t'.outbox ≡ t.outbox

set_status_at :
    (id : ℕ) (row : Infringement) (status : HitStatus) (rows : Dict Infringement)
    → lookup id rows ≡ some row
    → lookup id (update id (set_status status) rows) ≡ some (record row { status = status })
set_status_at id row status rows e = ground (arith, lookup-update id id (set_status status) rows)

abbrev or_current : HitStatus → Option HitStatus → HitStatus
or_current current none = current
or_current current (some status) = status

status_for_lem :
    (signal : Signal) (status : HitStatus)
    → or_current status (status_for signal) ≡ after_signal signal status
unfolding status_for
status_for_lem not_me status = refl
status_for_lem confirmed status = refl
status_for_lem uncertain status = refl
status_for_lem is_authorised status = refl
status_for_lem resolved status = refl

applied_opinion :
    (id user : ℕ) (signal : Signal) (status : Option HitStatus) (row : Infringement) (t : Tables)
    → lookup id t.infringements ≡ some row
    → Judged id row
        (or_current row.status status)
        (record { infringement_id = id; user_ref = user; signal = signal } ∷ t.feedback)
        t
        (apply_signal id row.status status (add_feedback id user signal t)).1
applied_opinion id user signal none row t e = record {
  judged = e;
  others = λ i ne. refl;
  recorded = refl;
  same_attestations = refl;
  same_runs = refl;
  same_outbox = refl;
}
applied_opinion id user signal (some status) row t e = record {
  judged = set_status_at id row status t.infringements e;
  others = λ i ne. lookup-update_other id i (set_status status) t.infringements ne;
  recorded = refl;
  same_attestations = refl;
  same_runs = refl;
  same_outbox = refl;
}

unheard :
    (id : ℕ) (row : Infringement) (t : Tables)
    → lookup id t.infringements ≡ some row
    → Judged id row row.status t.feedback t t
unheard id row t e = record {
  judged = e;
  others = λ i ne. refl;
  recorded = refl;
  same_attestations = refl;
  same_runs = refl;
  same_outbox = refl;
}

one_opinion :
    (id user : ℕ) (signal : Signal) (row : Infringement) (t : Tables)
    → lookup id t.infringements ≡ some row
    → Judged id row
        (if row.user_ref == user then after_signal signal row.status else row.status)
        (if row.user_ref == user
          then record { infringement_id = id; user_ref = user; signal = signal } ∷ t.feedback
          else t.feedback)
        t
        (record_feedback id user signal t).1
unfolding record_feedback
one_opinion id user signal row t e = elim (Bool-cases (row.user_ref == user)) [
  | inl own ↦
      let a = applied_opinion id user signal (status_for signal) row t e in
      rw (e, owned, own, give_feedback)
        (subst
          (λ st.
            Judged id row st
              (record { infringement_id = id; user_ref = user; signal = signal } ∷ t.feedback) t
              (apply_signal id row.status (status_for signal) (add_feedback id user signal t)).1)
          (status_for_lem signal row.status) a)
  | inr foreign ↦ rw (e, owned, foreign, give_feedback) (unheard id row t e)
]

then-Judged :
    (id : ℕ) (row : Infringement) (status status' : HitStatus) (rows rows' : List Feedback)
    (t t1 t' : Tables)
    → Judged id row status rows t t1
    → Judged id (record row { status = status }) status' rows' t1 t'
    → Judged id row status' rows' t t'
then-Judged id row status status' rows rows' t t1 t' a b = record {
  judged = b.judged;
  others = λ i ne. b.others i ne ∙ a.others i ne;
  recorded = b.recorded;
  same_attestations = b.same_attestations ∙ a.same_attestations;
  same_runs = b.same_runs ∙ a.same_runs;
  same_outbox = b.same_outbox ∙ a.same_outbox;
}

-- After any feedback on a hit, by its owner and by others, in any order: the last signal of the owner
-- that is not `uncertain` decides its status, which `not_me` makes dismissed, `confirmed` acknowledged,
-- `is_authorised` authorised and `resolved` resolved by the user, and without one it stays; each of the owner's signals is a row of
-- the feedback, in order, and nobody else's is; all else of the hit, the other hits, the attestations,
-- the runs and the outbox are as they were.
pub give_all-Judged :
    (id : ℕ) (said : List (ℕ × Signal)) (row : Infringement) (t : Tables)
    → lookup id t.infringements ≡ some row
    → Judged id row
        (opinion row.user_ref said row.status)
        (appended id row.user_ref said t.feedback)
        t
        (give_all id said t)
unfolding give_all
give_all-Judged id [] row t e = unheard id row t e
give_all-Judged id ((user, signal) ∷ said) row t e =
    let t1 = (record_feedback id user signal t).1 in
    let a = one_opinion id user signal row t e in
    let status = if row.user_ref == user then after_signal signal row.status else row.status in
    let b = give_all-Judged id said (record row { status = status }) t1 a.judged in
    then-Judged id row status _ _ _ t t1 (give_all id said t1) a (
      subst
        (λ rows.
          Judged id (record row { status = status }) (opinion row.user_ref said status)
            (appended id row.user_ref said rows) t1 (give_all id said t1))
        a.recorded b)
