-- ===== src/Relay.antt =====
-- The outbox relay (imageshield/relay.py): one process that reads the outbox and sends its rows.
-- Queue names, URLs, payloads and error texts are only passed on: numbers. Times are whole seconds of
-- the monotonic clock. What another relay process locks is not modelled.
use silver_invention.Prelude.{
  ℕ, zero, suc, ◌+◌, ◌*◌, ◌^◌, min, Option, none, some, Bool, true, false, not, ◌&&◌, ◌||◌, List,
  [], ◌∷◌, if◌then◌else◌, ltb, leb, ◌==◌,
}
use silver_invention.Prelude.Dict.{Dict, lookup, update, insert, erase}
pub mod Select
pub mod Progress
pub mod Delivery
pub mod Once
mod Examples

-- A row of `outbox`; its key is the outbox id.
pub record OutboxRow : Type 0 where
  pub queue_name : ℕ
  pub payload : ℕ
  pub is_published : Bool
  pub attempts : ℕ
  pub last_error : Option ℕ

pub record Config : Type 0 where
  pub batch_size : ℕ
  pub max_attempts : ℕ
  -- `_queue_url`
  pub queue_url : ℕ → Option ℕ

-- What the rounds of a poll meet: the clock, and what sending a message to a queue raises, if
-- anything.
pub record Outside : Type 0 where
  pub clock : ℕ → ℕ
  pub send : ℕ → ℕ → ℕ → Option ℕ

pub record PollStats : Type 0 where
  pub published : ℕ
  pub failed : ℕ
  pub skipped_backoff : ℕ

-- The table, the backoff tracker, the messages sent (outbox id, URL and payload, the last first) and
-- the counts.
pub record State : Type 0 where
  pub rows : Dict OutboxRow
  pub next_attempt_at : Dict ℕ
  pub sent : List (ℕ × ℕ × ℕ)
  pub stats : PollStats

abbrev pub mem : ℕ → List ℕ → Bool
mem x [] = false
mem x (y ∷ ys) = x == y || mem x ys

-- BackoffTracker.blocked
unfoldable pub blocked : ℕ → ℕ → Dict ℕ → Bool
blocked id t tracker = elim (lookup id tracker) [ none ↦ false | some deadline ↦ ltb t deadline ]

-- BackoffTracker.record_failure
abbrev pub backoff_delay : ℕ → ℕ
backoff_delay attempts = min (1 * 2 ^ attempts) 300

unfoldable pub record_failure : ℕ → ℕ → ℕ → Dict ℕ → Dict ℕ
record_failure id attempts t tracker = insert id (t + backoff_delay attempts) tracker

-- The WHERE clause of _SELECT_NEXT_SQL, and its ORDER BY and LIMIT 1.
abbrev pub is_eligible : ℕ → List ℕ → ℕ → OutboxRow → Bool
is_eligible max_attempts skip_ids id row =
    not row.is_published && ltb row.attempts max_attempts && not (mem id skip_ids)

abbrev pub earlier : ℕ × OutboxRow → Option (ℕ × OutboxRow) → ℕ × OutboxRow
earlier a none = a
earlier a (some b) = if ltb b.0 a.0 then b else a

unfoldable pub select_next : ℕ → List ℕ → Dict OutboxRow → Option (ℕ × OutboxRow)
select_next max_attempts skip_ids [] = none
select_next max_attempts skip_ids ((id, row) ∷ rows) =
    let rest = select_next max_attempts skip_ids rows in
    if is_eligible max_attempts skip_ids id row then some (earlier (id, row) rest) else rest

-- _MARK_PUBLISHED_SQL and _RECORD_FAILURE_SQL on a row.
abbrev pub mark_published : OutboxRow → OutboxRow
mark_published row = record row { is_published = true; last_error = none }

abbrev pub mark_failed : ℕ → OutboxRow → OutboxRow
mark_failed error row = record row { attempts = row.attempts + 1; last_error = some error }

-- `publish`: the error, if `queue_url` or `send_message` raises one; an unknown queue is error 0.
unfoldable pub publish : Config → Outside → ℕ → OutboxRow → Option ℕ
publish cfg out round row = elim (cfg.queue_url row.queue_name) [
  | none ↦ some 0
  | some url ↦ out.send round url row.payload
]

abbrev pub url_or : Option ℕ → ℕ
url_or none = 0
url_or (some url) = url

unfoldable pub on_failure : Config → ℕ → ℕ → OutboxRow → ℕ → State → State
unfolding record_failure
on_failure cfg t id row error s =
    let attempts = row.attempts + 1 in
    let tracked = record_failure id attempts t s.next_attempt_at in
    record s {
      rows = update id (mark_failed error) s.rows;
      next_attempt_at = if leb cfg.max_attempts attempts then erase id tracked else tracked;
      stats = record {
        published = s.stats.published;
        failed = s.stats.failed + 1;
        skipped_backoff = s.stats.skipped_backoff;
      };
    }

unfoldable pub on_sent : Config → ℕ → OutboxRow → State → State
on_sent cfg id row s = record s {
  rows = update id mark_published s.rows;
  next_attempt_at = erase id s.next_attempt_at;
  sent = (id, url_or (cfg.queue_url row.queue_name), row.payload) ∷ s.sent;
  stats = record {
    published = s.stats.published + 1;
    failed = s.stats.failed;
    skipped_backoff = s.stats.skipped_backoff;
  };
}

abbrev pub on_blocked : State → State
on_blocked s = record s {
  stats = record {
    published = s.stats.published;
    failed = s.stats.failed;
    skipped_backoff = s.stats.skipped_backoff + 1;
  };
}

-- One round on the selected row: the ids to skip from here on, and the state.
unfoldable pub handle : Config → Outside → ℕ → List ℕ → ℕ → OutboxRow → State → List ℕ × State
handle cfg out round skip_ids id row s =
    if blocked id (out.clock round) s.next_attempt_at
    then (id ∷ skip_ids, on_blocked s)
    else elim (publish cfg out round row) [
      | some error ↦ (skip_ids, on_failure cfg (out.clock round) id row error s)
      | none ↦ (skip_ids, on_sent cfg id row s)
    ]

-- The `for` loop: the rounds left and the round's number.
pub poll_loop : Config → Outside → ℕ → ℕ → List ℕ → State → State
poll_loop cfg out zero round skip_ids s = s
poll_loop cfg out (suc left) round skip_ids s =
    elim (select_next cfg.max_attempts skip_ids s.rows) [
      | none ↦ s
      | some (id, row) ↦
          (let (skip_ids', s') = handle cfg out round skip_ids id row s in
            poll_loop cfg out left (round + 1) skip_ids' s')
    ]

abbrev pub no_stats : PollStats
no_stats = record { published = 0; failed = 0; skipped_backoff = 0 }

unfoldable pub poll_once : Config → Outside → Dict OutboxRow → Dict ℕ → State
unfolding poll_loop
poll_once cfg out rows tracker =
    poll_loop cfg out cfg.batch_size 0 []
      (record { rows = rows; next_attempt_at = tracker; sent = []; stats = no_stats })
