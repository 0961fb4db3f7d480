-- ===== src/Relay/Once.antt =====
-- A message is sent once (poll_once of relay.py).
use silver_invention.Relay.Delivery.{handle-Advances}
use silver_invention.Prelude.{
  ℕ, zero, suc, ◌+◌, ◌≡◌, ◌≢◌, refl, some, none, true, false, List, [], ◌∷◌, arith, Bool-cases,
  Option-cases, inl, inr,
}
use silver_invention.Prelude.Dict.{Dict, lookup, update, lookup-update, Unique}
use silver_invention.Relay.{
  OutboxRow, Config, Outside, State, is_eligible, select_next, handle, blocked, publish, on_failure,
  on_sent, poll_loop, poll_once, mark_published, mark_failed, no_stats, url_or,
}
use silver_invention.Relay.Select.{select_next_sound}

-- The row of a sent message is published, with the message's payload and queue.
pub record IsDelivered (cfg : Config) (rows : Dict OutboxRow) (id url payload : ℕ) : Type 0 where
  pub row : OutboxRow
  pub found : lookup id rows ≡ some row
  pub published : row.is_published ≡ true
  pub same_payload : row.payload ≡ payload
  pub same_queue : cfg.queue_url row.queue_name ≡ some url

-- No message for the id.
abbrev pub NoneFor : ℕ → List (ℕ × ℕ × ℕ) → Type 0
NoneFor id [] = Unit
NoneFor id ((i, _, _) ∷ sent) = (i ≢ id) × NoneFor id sent

-- Every message is delivered, and no two are for one id.
abbrev pub SentOnce : Config → Dict OutboxRow → List (ℕ × ℕ × ℕ) → Type 0
SentOnce cfg rows [] = Unit
SentOnce cfg rows ((id, url, payload) ∷ sent) =
    IsDelivered cfg rows id url payload × NoneFor id sent × SentOnce cfg rows sent

no_clash :
    (i id : ℕ) (a b : OutboxRow) (rows : Dict OutboxRow)
    → i ≡ id
    → lookup i rows ≡ some a
    → a.is_published ≡ true
    → lookup id rows ≡ some b
    → b.is_published ≡ false
    → ⊥
no_clash i id a b rows same ea pa eb pb = grind arith

untouched :
    (i id : ℕ) (f : OutboxRow → OutboxRow) (a : OutboxRow) (rows : Dict OutboxRow)
    → i ≢ id
    → lookup i rows ≡ some a
    → lookup i (update id f rows) ≡ some a
untouched i id f a rows other e = ground (arith, lookup-update id i f rows)

touched :
    (id : ℕ) (f : OutboxRow → OutboxRow) (a : OutboxRow) (rows : Dict OutboxRow)
    → lookup id rows ≡ some a
    → lookup id (update id f rows) ≡ some (f a)
touched id f a rows e = ground (arith, lookup-update id id f rows)

-- A row that is not published has no message.
NoneFor-open :
    (cfg : Config) (rows : Dict OutboxRow) (sent : List (ℕ × ℕ × ℕ)) (id : ℕ) (row : OutboxRow)
    → SentOnce cfg rows sent
    → lookup id rows ≡ some row
    → row.is_published ≡ false
    → NoneFor id sent
NoneFor-open cfg rows [] id row once e h = tt
NoneFor-open cfg rows ((i, url, payload) ∷ sent) id row (d, _, once) e h = (
  λ same. no_clash i id d.row row rows same d.found d.published e h,
  NoneFor-open cfg rows sent id row once e h,
)

-- A change of a row without messages leaves the messages delivered.
SentOnce-update :
    (cfg : Config) (rows : Dict OutboxRow) (sent : List (ℕ × ℕ × ℕ)) (id : ℕ)
    (f : OutboxRow → OutboxRow)
    → NoneFor id sent
    → SentOnce cfg rows sent
    → SentOnce cfg (update id f rows) sent
SentOnce-update cfg rows [] id f none_for once = tt
SentOnce-update cfg rows ((i, url, payload) ∷ sent) id f (other, none_for) (d, fresh, once) = (
  record {
    row = d.row;
    found = untouched i id f d.row rows other d.found;
    published = d.published;
    same_payload = d.same_payload;
    same_queue = d.same_queue;
  },
  fresh,
  SentOnce-update cfg rows sent id f none_for once,
)

eligible_open :
    (m id : ℕ) (skip_ids : List ℕ) (row : OutboxRow)
    → is_eligible m skip_ids id row ≡ true
    → row.is_published ≡ false
eligible_open m id skip_ids row el = ground arith

sent_to :
    (cfg : Config) (out : Outside) (round : ℕ) (row : OutboxRow)
    → publish cfg out round row ≡ none
    → cfg.queue_url row.queue_name ≡ some (url_or (cfg.queue_url row.queue_name))
unfolding publish
sent_to cfg out round row e = ground arith

handle-SentOnce :
    (cfg : Config) (out : Outside) (round : ℕ) (skip_ids : List ℕ) (id : ℕ) (row : OutboxRow)
    (s : State)
    → lookup id s.rows ≡ some row
    → is_eligible cfg.max_attempts skip_ids id row ≡ true
    → SentOnce cfg s.rows s.sent
    → let s' = (handle cfg out round skip_ids id row s).1 in SentOnce cfg s'.rows s'.sent
unfolding handle on_failure on_sent
handle-SentOnce cfg out round skip_ids id row s e el once =
    let fresh =
      NoneFor-open cfg s.rows s.sent id row once e
        (eligible_open cfg.max_attempts id skip_ids row el) in
    elim (Bool-cases (blocked id (out.clock round) s.next_attempt_at)) [
      | inl wait ↦ rw (wait, handle) once
      | inr free ↦ elim (Option-cases (publish cfg out round row)) [
        | inr (error, ep) ↦
            rw (free, ep, handle)
              (SentOnce-update cfg s.rows s.sent id (mark_failed error) fresh once)
        | inl ep ↦
            rw (free, ep, handle)
              (
                record {
                  row = mark_published row;
                  found = touched id mark_published row s.rows e;
                  published = refl;
                  same_payload = refl;
                  same_queue = sent_to cfg out round row ep;
                },
                fresh,
                SentOnce-update cfg s.rows s.sent id mark_published fresh once,
              )
      ]
    ]

loop-SentOnce :
    (cfg : Config) (out : Outside) (left round : ℕ) (skip_ids : List ℕ) (s : State)
    → Unique s.rows
    → SentOnce cfg s.rows s.sent
    → let s' = poll_loop cfg out left round skip_ids s in SentOnce cfg s'.rows s'.sent
unfolding poll_loop
loop-SentOnce cfg out zero round skip_ids s u once = once
loop-SentOnce cfg out (suc left) round skip_ids s u once =
    elim (Option-cases (select_next cfg.max_attempts skip_ids s.rows)) [
      | inl nothing ↦ rw (nothing, poll_loop) once
      | inr ((id, row), e) ↦
          let (er, el) = select_next_sound cfg.max_attempts skip_ids s.rows id row u e in
          let (skip_ids', s') = handle cfg out round skip_ids id row s in
          rw (e, poll_loop)
            (loop-SentOnce cfg out left (round + 1) skip_ids' s'
              (handle-Advances cfg out round skip_ids id row s u er el).unique
              (handle-SentOnce cfg out round skip_ids id row s er el once))
    ]

-- At most one send of a poll returns for a row, and the row of every message whose send returned is
-- published after the poll, with the payload and the queue of the message: such a row cannot be
-- selected again. A send that raises may still have delivered its message; it is not counted here, and
-- the row may be sent again, since delivery is at least once. The ids of the table are unique.
pub poll_once-SentOnce :
    (cfg : Config) (out : Outside) (rows : Dict OutboxRow) (tracker : Dict ℕ)
    → Unique rows
    → let s = poll_once cfg out rows tracker in SentOnce cfg s.rows s.sent
unfolding poll_once
poll_once-SentOnce cfg out rows tracker u =
    loop-SentOnce cfg out cfg.batch_size 0 []
      (record { rows = rows; next_attempt_at = tracker; sent = []; stats = no_stats }) u tt
