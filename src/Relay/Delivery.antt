-- ===== src/Relay/Delivery.antt =====
-- What a poll does to every row of the outbox (poll_once of relay.py).
use silver_invention.Prelude.{
  zero, ℕ, zero, suc, ◌+◌, ◌≤◌, ◌≡◌, inl, inr, refl, some, true, List, [], length, arith,
  Bool-cases, Option-cases, subst, sym,
}
use silver_invention.Prelude.Dict.{Dict, lookup, update}
use silver_invention.Relay.{
  OutboxRow, Config, Outside, State, is_eligible, select_next, handle, blocked, publish, on_failure,
  on_sent, poll_loop, poll_once, mark_published, mark_failed, no_stats,
}
use silver_invention.Relay.Select.{select_next_sound}
use silver_invention.Prelude.Dict.{Unique, update-Unique}
use silver_invention.Relay.Progress.{
  WasSent, Progress, Progress-refl, Progress-trans, Progress-mono, published-Progress,
  failed-Progress, TableProgress, update-TableProgress,
}

abbrev pub Grows : List (ℕ × ℕ × ℕ) → List (ℕ × ℕ × ℕ) → Type 0
Grows sent sent' = (id payload : ℕ) → WasSent id payload sent → WasSent id payload sent'

-- What a stretch of a poll does to the table and the messages.
pub record Advances (m : ℕ) (s s' : State) : Type 0 where
  pub rows : TableProgress m s'.sent s.rows s'.rows
  pub grows : Grows s.sent s'.sent
  pub unique : Unique s'.rows

Advances-refl : (m : ℕ) (s : State) → Unique s.rows → Advances m s s
Advances-refl m s u = record {
  rows = λ id old e. (old, e, Progress-refl m id s.sent old);
  grows = λ id payload h. h;
  unique = u;
}

Advances-trans : (m : ℕ) (a b c : State) → Advances m a b → Advances m b c → Advances m a c
Advances-trans m a b c p q = record {
  rows = λ id old e.
      let (mid, em, pm) = p.rows id old e in
      let (new, en, pn) = q.rows id mid em in
      (
        new,
        en,
        Progress-trans m id c.sent old mid new
            (Progress-mono m id b.sent c.sent old mid (q.grows id old.payload) pm) pn,
      );
  grows = λ id payload h. q.grows id payload (p.grows id payload h);
  unique = q.unique;
}

-- A change of one row that makes progress advances the state.
row_Advances :
    (m j : ℕ) (f : OutboxRow → OutboxRow) (r : OutboxRow) (s s' : State)
    → s'.rows ≡ update j f s.rows
    → Unique s.rows
    → lookup j s.rows ≡ some r
    → Grows s.sent s'.sent
    → Progress m j s'.sent r (f r)
    → Advances m s s'
row_Advances m j f r s s' e u er grows p = record {
  rows = λ id old eo.
      subst (λ d. (new : OutboxRow) × (lookup id d ≡ some new) × Progress m id s'.sent old new)
        (sym e) (update-TableProgress m j f s'.sent s.rows r er p id old eo);
  grows = grows;
  unique = subst Unique (sym e) (update-Unique j f s.rows u);
}

pub handle-Advances :
    (cfg : Config) (out : Outside) (round : ℕ) (skip_ids : List ℕ) (id : ℕ) (row : OutboxRow)
    (s : State)
    → Unique s.rows
    → lookup id s.rows ≡ some row
    → is_eligible cfg.max_attempts skip_ids id row ≡ true
    → Advances cfg.max_attempts s (handle cfg out round skip_ids id row s).1
unfolding handle on_failure on_sent
handle-Advances cfg out round skip_ids id row s u e el =
    elim (Bool-cases (blocked id (out.clock round) s.next_attempt_at)) [
      | inl wait ↦
          rw (wait, handle)
            (record {
              rows = λ i old eo. (old, eo, Progress-refl cfg.max_attempts i s.sent old);
              grows = λ i payload h. h;
              unique = u;
            })
      | inr free ↦ elim (Option-cases (publish cfg out round row)) [
        | inr (error, ep) ↦
            rw (free, ep, handle)
              (row_Advances cfg.max_attempts id (mark_failed error) row s _ refl u e
                (λ i payload h. h)
                (failed-Progress cfg.max_attempts id error s.sent skip_ids row el))
        | inl ep ↦
            rw (free, ep, handle)
              (row_Advances cfg.max_attempts id mark_published row s (on_sent cfg id row s) refl u e
                (λ i payload h. inr h)
                (published-Progress cfg.max_attempts id (on_sent cfg id row s).sent skip_ids row el
                  (inl (refl, refl))))
      ]
    ]

loop-Advances :
    (cfg : Config) (out : Outside) (left round : ℕ) (skip_ids : List ℕ) (s : State)
    → Unique s.rows
    → Advances cfg.max_attempts s (poll_loop cfg out left round skip_ids s)
unfolding poll_loop
loop-Advances cfg out zero round skip_ids s u = Advances-refl cfg.max_attempts s u
loop-Advances cfg out (suc left) round skip_ids s u =
    elim (Option-cases (select_next cfg.max_attempts skip_ids s.rows)) [
      | inl nothing ↦ rw (nothing, poll_loop) (Advances-refl cfg.max_attempts s u)
      | inr ((id, row), e) ↦
          let (er, el) = select_next_sound cfg.max_attempts skip_ids s.rows id row u e in
          let now = handle-Advances cfg out round skip_ids id row s u er el in
          let (skip_ids', s') = handle cfg out round skip_ids id row s in
          rw (e, poll_loop)
            (Advances-trans cfg.max_attempts s s' _ now
              (loop-Advances cfg out left (round + 1) skip_ids' s' now.unique))
    ]

-- A poll never loses or repeats a row's state. Every row of the outbox is still there after it, with
-- its queue and payload; one that is published now was published before or its message was sent in
-- this poll; a published row and a dead letter (its attempts at the limit) are not touched; the
-- attempts never fall, and never rise above the limit. The ids of the table are unique.
pub poll_once-Progress :
    (cfg : Config) (out : Outside) (rows : Dict OutboxRow) (tracker : Dict ℕ)
    → Unique rows
    → (id : ℕ) (old : OutboxRow) → lookup id rows ≡ some old
    → let s = poll_once cfg out rows tracker in
      (new : OutboxRow) × (lookup id s.rows ≡ some new)
      × Progress cfg.max_attempts id s.sent old new
unfolding poll_once
poll_once-Progress cfg out rows tracker u =
    (loop-Advances cfg out cfg.batch_size 0 []
      (record { rows = rows; next_attempt_at = tracker; sent = []; stats = no_stats }) u).rows

-- The counts of a state's statistics.
abbrev handled : State → ℕ
handled s = s.stats.published + s.stats.failed + s.stats.skipped_backoff

handle-counts :
    (cfg : Config) (out : Outside) (round : ℕ) (skip_ids : List ℕ) (id : ℕ) (row : OutboxRow)
    (s : State)
    → let s' = (handle cfg out round skip_ids id row s).1 in
      (handled s' ≡ handled s + 1)
      × (length s'.sent + s.stats.published ≡ length s.sent + s'.stats.published)
unfolding handle on_failure on_sent
handle-counts cfg out round skip_ids id row s = ground arith

loop-counts :
    (cfg : Config) (out : Outside) (left round : ℕ) (skip_ids : List ℕ) (s : State)
    → let s' = poll_loop cfg out left round skip_ids s in
      (handled s' ≤ handled s + left)
      × (length s'.sent + s.stats.published ≡ length s.sent + s'.stats.published)
unfolding poll_loop
loop-counts cfg out zero round skip_ids s = omega arith
loop-counts cfg out (suc left) round skip_ids s =
    elim (Option-cases (select_next cfg.max_attempts skip_ids s.rows)) [
      | inl nothing ↦ rw (nothing, poll_loop) (omega arith)
      | inr ((id, row), e) ↦
          let (skip_ids', s') = handle cfg out round skip_ids id row s in
          rw (e, poll_loop)
            (omega (
              arith,
              handle-counts cfg out round skip_ids id row s,
              loop-counts cfg out left (round + 1) skip_ids' s',
            ))
    ]

-- A poll handles at most a batch: published, failed and deferred rows together are at most
-- `batch_size`, and the published count is the number of messages sent.
pub poll_once_counts :
    (cfg : Config) (out : Outside) (rows : Dict OutboxRow) (tracker : Dict ℕ)
    → let s = poll_once cfg out rows tracker in
      (s.stats.published + s.stats.failed + s.stats.skipped_backoff ≤ cfg.batch_size)
      × (s.stats.published ≡ length s.sent)
unfolding poll_once
poll_once_counts cfg out rows tracker =
    let s : State = record {
      rows = rows;
      next_attempt_at = tracker;
      sent = [];
      stats = no_stats;
    } in
    omega (arith, loop-counts cfg out cfg.batch_size 0 [] s)
