-- ===== src/Relay/Progress.antt =====
-- How a row of the outbox may change in a poll (poll_once of relay.py).
use silver_invention.Prelude.{
  ◌∙◌, ==→≡, ℕ, ◌≤◌, ◌<◌, ◌≡◌, ◌⊎◌, inl, inr, refl, some, true, false, List, [], ◌∷◌, ◌==◌, arith,
  Bool-cases, subst, sym,
}
use silver_invention.Prelude.Dict.{Dict, lookup, update, lookup-update}
use silver_invention.Relay.{OutboxRow, is_eligible, mark_published, mark_failed}

-- A message with the row's id and payload was sent.
abbrev pub WasSent : ℕ → ℕ → List (ℕ × ℕ × ℕ) → Type 0
WasSent id payload [] = ⊥
WasSent id payload ((i, _, p) ∷ sent) = ((id ≡ i) × (payload ≡ p)) ⊎ WasSent id payload sent

-- How a row may differ after a poll that sent `sent`.
pub record Progress (max_attempts id : ℕ) (sent : List (ℕ × ℕ × ℕ)) (old new : OutboxRow)
    : Type 0 where
  pub same_queue : new.queue_name ≡ old.queue_name
  pub same_payload : new.payload ≡ old.payload
  pub sent_first : new.is_published ≡ true → (old.is_published ≡ true) ⊎ WasSent id old.payload sent
  pub never_unpublished : old.is_published ≡ true → new ≡ old
  pub dead_letter : max_attempts ≤ old.attempts → new ≡ old
  pub counted : old.attempts ≤ new.attempts
  pub capped : old.attempts ≤ max_attempts → new.attempts ≤ max_attempts

pub Progress-refl : (m id : ℕ) (sent : List (ℕ × ℕ × ℕ)) (r : OutboxRow) → Progress m id sent r r
Progress-refl m id sent r = ground arith

pub Progress-trans :
    (m id : ℕ) (sent : List (ℕ × ℕ × ℕ)) (a b c : OutboxRow)
    → Progress m id sent a b
    → Progress m id sent b c
    → Progress m id sent a c
Progress-trans m id sent a b c p q = record {
  same_queue = q.same_queue ∙ p.same_queue;
  same_payload = q.same_payload ∙ p.same_payload;
  sent_first = λ h. elim (q.sent_first h) [
    | inl before ↦ p.sent_first before
    | inr was ↦ inr (subst (λ x. WasSent id x sent) p.same_payload was)
  ];
  never_unpublished = λ h.
      let e = p.never_unpublished h in
      q.never_unpublished (subst (λ (x : OutboxRow). x.is_published ≡ true) (sym e) h) ∙ e;
  dead_letter = λ h.
      let e = p.dead_letter h in
      q.dead_letter (subst (λ (x : OutboxRow). m ≤ x.attempts) (sym e) h) ∙ e;
  counted = omega (arith, p.counted, q.counted);
  capped = λ h. q.capped (p.capped h);
}

pub Progress-mono :
    (m id : ℕ) (sent sent' : List (ℕ × ℕ × ℕ)) (a b : OutboxRow)
    → (WasSent id a.payload sent → WasSent id a.payload sent')
    → Progress m id sent a b
    → Progress m id sent' a b
Progress-mono m id sent sent' a b grows p = record {
  same_queue = p.same_queue;
  same_payload = p.same_payload;
  sent_first = λ h. elim (p.sent_first h) [ inl before ↦ inl before | inr was ↦ inr (grows was) ];
  never_unpublished = p.never_unpublished;
  dead_letter = p.dead_letter;
  counted = p.counted;
  capped = p.capped;
}

open_row :
    (m id : ℕ) (skip_ids : List ℕ) (r : OutboxRow)
    → is_eligible m skip_ids id r ≡ true
    → (r.is_published ≡ false) × (r.attempts < m)
open_row m id skip_ids r el = ground arith

pub published-Progress :
    (m id : ℕ) (sent : List (ℕ × ℕ × ℕ)) (skip_ids : List ℕ) (r : OutboxRow)
    → is_eligible m skip_ids id r ≡ true
    → WasSent id r.payload sent
    → Progress m id sent r (mark_published r)
published-Progress m id sent skip_ids r el was =
    let (unsent, below) = open_row m id skip_ids r el in
    record {
      same_queue = refl;
      same_payload = refl;
      sent_first = λ _. inr was;
      never_unpublished = λ h. absurd (cc);
      dead_letter = λ h. absurd (omega arith);
      counted = omega arith;
      capped = λ h. h;
    }

pub failed-Progress :
    (m id error : ℕ) (sent : List (ℕ × ℕ × ℕ)) (skip_ids : List ℕ) (r : OutboxRow)
    → is_eligible m skip_ids id r ≡ true
    → Progress m id sent r (mark_failed error r)
failed-Progress m id error sent skip_ids r el = ground arith

-- Every row of a table makes progress to its row of another.
abbrev pub TableProgress : ℕ → List (ℕ × ℕ × ℕ) → Dict OutboxRow → Dict OutboxRow → Type 0
TableProgress m sent rows rows' =
    (id : ℕ) (old : OutboxRow)
    → lookup id rows ≡ some old
    → (new : OutboxRow) × (lookup id rows' ≡ some new) × Progress m id sent old new

pub update-TableProgress :
    (m j : ℕ) (f : OutboxRow → OutboxRow) (sent : List (ℕ × ℕ × ℕ)) (rows : Dict OutboxRow)
    (r : OutboxRow)
    → lookup j rows ≡ some r
    → Progress m j sent r (f r)
    → TableProgress m sent rows (update j f rows)
update-TableProgress m j f sent rows r e p id old eo = elim (Bool-cases (j == id)) [
  | inl same ↦
      let ids = ==→≡ j id same in
      let rows_same : r ≡ old = ground arith in
      (
        f old,
        ground (arith, lookup-update j id f rows),
        subst (λ x. Progress m id sent x (f x)) rows_same
            (subst (λ i. Progress m i sent r (f r)) ids p),
      )
  | inr other ↦ (old, ground (arith, lookup-update j id f rows), Progress-refl m id sent old)
]
