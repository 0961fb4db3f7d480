-- ===== src/Relay/Examples.antt =====
-- A poll at concrete inputs: one row that is sent, one that fails, one that is published already.
use silver_invention.Prelude.{◌+◌, ◌≡◌, refl, none, some, true, false, [], ◌∷◌, if◌then◌else◌, ◌==◌}
use silver_invention.Prelude.Dict.{Dict, lookup}
use silver_invention.Relay.{OutboxRow, Config, Outside, poll_once}
use silver_invention.Prelude.Dict.{Unique}
use silver_invention.Relay.Progress.{Progress}
use silver_invention.Relay.Once.{SentOnce, poll_once-SentOnce}
use silver_invention.Relay.Delivery.{poll_once-Progress}

abbrev fresh : OutboxRow
fresh = record {
  queue_name = 1;
  payload = 50;
  is_published = false;
  attempts = 0;
  last_error = none;
}

abbrev failing : OutboxRow
failing = record fresh { payload = 51; attempts = 4 }

abbrev done : OutboxRow
done = record fresh { payload = 52; is_published = true }

abbrev rows : Dict OutboxRow
rows = (3, done) ∷ (2, failing) ∷ (1, fresh) ∷ []

abbrev config : Config
config = record { batch_size = 10; max_attempts = 5; queue_url = λ name. some name }

abbrev outside : Outside
outside = record {
  clock = λ round. 1000 + round;
  send = λ round url payload. if payload == 51 then some 7 else none;
}

rows-Unique : Unique rows
rows-Unique = (refl, (refl, (refl, tt)))

poll_once-Progress_example :
    (new : OutboxRow) × (lookup 2 (poll_once config outside rows []).rows ≡ some new)
    × Progress 5 2 (poll_once config outside rows []).sent failing new
poll_once-Progress_example = poll_once-Progress config outside rows [] rows-Unique 2 failing refl

poll_once-SentOnce_example :
    let s = poll_once config outside rows [] in SentOnce config s.rows s.sent
poll_once-SentOnce_example = poll_once-SentOnce config outside rows [] rows-Unique
