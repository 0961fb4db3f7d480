-- ===== src/Review/Subject/Answers.antt =====
-- A subject who changes their mind (subject_decide of imageshield/review/store.py): only the last answer
-- counts.
use silver_invention.Prelude.{
  ℕ, ◌≡◌, refl, sym, ap, subst, ◌∙◌, Option, none, some, true, false, List, [], ◌∷◌, ◌++◌, arith,
  ◌==◌,
}
use silver_invention.Prelude.Dict.{lookup, update, lookup-update}
use silver_invention.Search.Store.{HitStatus, fresh, dismissed_not_me}
use silver_invention.Confirm.Store.{
  Decision, confirm, reject, Hit, Tables, ConfirmState, unconfirmed, machine_triaged, confirmed,
  rejected, duplicate, quarantined, is_open, is_some, passes, subject_text,
}
use silver_invention.Review.Store.{state_of}
use silver_invention.Review.Subject.{
  subject_decide, subject_hit, subject_on, follow, ruling_of, Ruling, write, answer, status_after,
  replay,
}

abbrev pub after_answer {ℓ} : {A : Type ℓ} → Option (A × Tables) → Tables → Tables
after_answer none t = t
after_answer (some (a, t')) t = t'

-- The subject's answers, each with its time, the first one first.
unfoldable pub answer_all : ℕ → ℕ → List (ℕ × Decision) → Tables → Tables
answer_all id user [] t = t
answer_all id user ((now, decision) ∷ answers) t =
    answer_all id user answers (after_answer (subject_decide now id user decision t) t)

-- The position that an answer leaves, where the subject has given no signal.
abbrev pub place : Decision → HitStatus
place reject = dismissed_not_me
place confirm = fresh

-- The hit is where the answer puts it.
pub record Answered (user : ℕ) (decision : Decision) (h : Hit) : Type 0 where
  pub own : h.user_ref ≡ user
  pub in_state : h.confirm_state ≡ state_of decision
  pub by_subject : h.confirm_decided_by ≡ some subject_text
  pub in_place : h.status ≡ place decision
  pub no_source : is_some h.duplicate_of ≡ false

abbrev pub AnsweredAt : ℕ → ℕ → Decision → Tables → Type 0
AnsweredAt id user decision t = (h : Hit) × (lookup id t.hits ≡ some h) × Answered user decision h

open-ruling :
    (state : ConfirmState) (by : Option ℕ) (decision : Decision)
    → is_open state ≡ true
    → ruling_of state by decision ≡ write
open-ruling unconfirmed by decision o = refl
open-ruling machine_triaged by decision o = refl
open-ruling confirmed by decision o = absurd (ground arith)
open-ruling rejected by decision o = absurd (ground arith)
open-ruling duplicate by decision o = absurd (ground arith)
open-ruling quarantined by decision o = absurd (ground arith)

passes-subject :
    (now : ℕ) (decision : Decision) (h : Hit)
    → is_some h.duplicate_of ≡ false
    → passes (subject_hit now decision h) ≡ true
passes-subject now confirm h e = rw e refl
passes-subject now reject h e = rw e refl

module _ (now id user : ℕ) (h : Hit) (t : Tables) (found : lookup id t.hits ≡ some h)
    (own : h.user_ref ≡ user) (free : is_some h.duplicate_of ≡ false) where
  decided_as :
      (decision : Decision) (ruling : Ruling)
      → ruling_of h.confirm_state h.confirm_decided_by decision ≡ ruling
      → subject_decide now id user decision t ≡ follow now id decision ruling h t
  unfolding subject_decide
  decided_as decision ruling e =
      let mine : h.user_ref == user ≡ true = ground arith in
      ap (λ o. subject_on now id user decision o t) found ∙ rw (mine, e) refl

  written-Answered :
      (decision : Decision)
      → ruling_of h.confirm_state h.confirm_decided_by decision ≡ write
      → status_after decision h.status ≡ place decision
      → AnsweredAt id user decision (after_answer (subject_decide now id user decision t) t)
  written-Answered decision e placed =
      let row = subject_hit now decision h in
      let self : id == id ≡ true = ground arith in
      let at : lookup id (update id (subject_hit now decision) t.hits) ≡ some row =
        lookup-update id id (subject_hit now decision) t.hits ∙ rw (self, found) refl in
      let stands : Answered user decision row = record {
        own = own;
        in_state = refl;
        by_subject = refl;
        in_place = placed;
        no_source = free;
      } in
      subst (λ o. AnsweredAt id user decision (after_answer o t))
        (sym (decided_as decision write e))
        (rw (passes-subject now decision h free) (row, at, stands))

  replayed :
      (decision : Decision)
      → ruling_of h.confirm_state h.confirm_decided_by decision ≡ answer replay
      → Answered user decision h
      → AnsweredAt id user decision (after_answer (subject_decide now id user decision t) t)
  replayed decision e a =
      subst (λ o. AnsweredAt id user decision (after_answer o t))
        (sym (decided_as decision (answer replay) e)) (h, found, a)

  -- An answer after an answer.
  answer_again :
      (old decision : Decision)
      → Answered user old h
      → AnsweredAt id user decision (after_answer (subject_decide now id user decision t) t)
  answer_again confirm confirm a =
      let state = a.in_state in let by = a.by_subject in replayed confirm (rw (state, by) refl) a
  answer_again reject reject a =
      let state = a.in_state in let by = a.by_subject in replayed reject (rw (state, by) refl) a
  answer_again confirm reject a =
      let state = a.in_state in
      let by = a.by_subject in written-Answered reject (rw (state, by) refl) refl
  answer_again reject confirm a =
      let state = a.in_state in
      let by = a.by_subject in
      written-Answered confirm (rw (state, by) refl) (ap (status_after confirm) a.in_place)

  -- The first answer.
  answer_first :
      (decision : Decision)
      → is_open h.confirm_state ≡ true
      → status_after confirm h.status ≡ fresh
      → AnsweredAt id user decision (after_answer (subject_decide now id user decision t) t)
  answer_first confirm o s = written-Answered confirm (open-ruling _ _ confirm o) s
  answer_first reject o s = written-Answered reject (open-ruling _ _ reject o) refl

answers-Answered :
    (id user : ℕ) (old : Decision) (answers : List (ℕ × Decision)) (now : ℕ) (last : Decision)
    (t : Tables)
    → AnsweredAt id user old t
    → AnsweredAt id user last (answer_all id user (answers ++ ((now, last) ∷ [])) t)
unfolding answer_all
answers-Answered id user old [] now last t (h, found, a) =
    answer_again now id user h t found a.own a.no_source old last a
answers-Answered id user old ((moment, decision) ∷ answers) now last t (h, found, a) =
    answers-Answered id user decision answers now last _
      (answer_again moment id user h t found a.own a.no_source old decision a)

-- A subject's hit that is open, has no source and whose status the subject has not set (it is new or
-- dismissed): after any answers of the subject, the last one alone says where it stands. It is confirmed
-- and new, or rejected and dismissed, and decided by the subject.
pub last_answer_counts :
    (id user : ℕ) (answers : List (ℕ × Decision)) (now : ℕ) (last : Decision) (h : Hit) (t : Tables)
    → lookup id t.hits ≡ some h
    → h.user_ref ≡ user
    → is_open h.confirm_state ≡ true
    → is_some h.duplicate_of ≡ false
    → status_after confirm h.status ≡ fresh
    → AnsweredAt id user last (answer_all id user (answers ++ ((now, last) ∷ [])) t)
unfolding answer_all
last_answer_counts id user [] now last h t found own o free s =
    answer_first now id user h t found own free last o s
last_answer_counts id user ((moment, decision) ∷ answers) now last h t found own o free s =
    answers-Answered id user decision answers now last _
      (answer_first moment id user h t found own free decision o s)
