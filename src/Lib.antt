-- ===== src/Lib.antt =====
-- Image Shield (src/imageshield): the rules that decide what a provider may be called for, what its
-- scores mean, which pages are asked again and which messages are sent.
--
-- The parts and the files that model them:
-- * Provider cost control (src/imageshield/providers), in Providers: before a run calls a provider,
--   `decide` of gate.py (Gate.antt) reads its row, its breaker and today's spend from the control
--   store, and takes the half-open probe of a breaker that is due; after the call `record_outcome` of
--   store.py (Store.antt) writes the call, the spend and the transition of breaker.py (Breaker.antt)
--   in one transaction; budget.py is Budget.antt, models.py is Models.antt and ratelimit.py, the
--   retries within one call, is Retry.antt. Store/Steps.antt has the store's operations as a step
--   relation, which any number of workers and operators take in any order.
-- * Search (src/imageshield/search): `execute_run` of runner.py, which composes the guard chain, the
--   adapters and the control store for one claimed run, in Search/Runner.antt; the scan cadence of
--   cadence.py in Search/Cadence.antt. The operations of store.py, with the feedback of feedback.py,
--   are functions of the tables in Search/Store.antt: the recording of hits and opinions in Hits.antt,
--   seeds and the life of a run in Runs.antt, and any sequence of them in Steps.antt. Each transaction
--   is one step, and answers `none` where the code raises and the database rolls back. The hash of a
--   URL is a parameter; what the confirm worker and the subjects write to the tables is a step whose
--   values are arbitrary.
-- * Calibration (src/imageshield/calibration/bands.py and models.py): banding and roll-up in
--   Calibration/Bands.antt, the check of a band set in Calibration/Validate.antt.
-- * Recheck (src/imageshield/recheck): the verdict policy, the egress guards, the prober and the
--   pacer, each in the file of its name under Recheck; Recheck/Sweep.antt is one pass of loop.py over
--   the tables of store.py, which composes them.
-- * The outbox relay (src/imageshield/relay.py), in Relay.antt.
-- * Confirmation of hits (src/imageshield/confirm): the severity and duplicate rules of triage.py and
--   phash.py in Confirm/Triage.antt; the tables of store.py in Confirm/Store.antt and its writes in
--   Confirm/Store/Writes.antt; `handle_message` of worker.py, which composes them with the guard chain,
--   the control store and the attribution of faces, in Confirm/Worker.antt (what it is given) and
--   Confirm/Worker/Handle.antt (its steps).
-- * Review (src/imageshield/review/store.py): the decisions of operators and verdicts in
--   Review/Store.antt, of subjects in Review/Subject.antt. Review/Moves.antt says what one transaction
--   may do to a hit and its task; Review/Steps.antt has any sequence of the transactions of workers,
--   operators, subjects and searches, each of which is shown to be such a move.
-- * Attribution of faces (src/imageshield/attribution/resolve.py), in Attribution/Resolve.antt.
-- * The fetcher's robots rules and their cache (src/imageshield/fetcher/robots.py), in
--   Fetcher/Robots.antt and Fetcher/Cache.antt.
-- * The live quiz and the weight cells (src/imageshield/intel/vocabulary.py and cells.py), in
--   Intel/Vocabulary.antt and Intel/Cells.antt.
-- Prelude holds what they share: tests and case lemmas, lists, integers, and tables as association
-- lists.
--
-- Conventions. A table is an association list from its key. Ids, texts and URLs that the code only
-- compares or stores are numbers. Money and scores are integers, in a unit that is fine enough for
-- every number at hand. A clock is an argument. Code behind the repository's borders (DNS, HTTP, SQS,
-- `urlsplit`, floats) is a record of functions that the definitions take.
--
-- Fuel. `send_loop` runs on one round more than the retries allowed, and the theorem on it says that
-- this is enough; every other loop recurs on its data or on a bound of the code (`max_redirects`,
-- `outbox_batch_size`).
--
-- Errors. Where the code raises, a function answers `none`: for a constraint of the tables (the CHECKs,
-- and the foreign keys that a log row or an attestation can miss), for an unknown provider or seed, and
-- for a call of foreign code that may raise, such as `urljoin` on a server's redirect.
--
-- Not modelled: a lost connection to the database; interleavings within one transaction (each is one
-- step), and between the transactions of one run of Search/Runner.antt or of one message of
-- Confirm/Worker; waiters of the pacer that overlap; the resolution of a name by the HTTP client, after
-- the guard's; row locks of other relay processes; logging; and the parts of src/imageshield that are
-- listed above by no file.
pub mod Prelude
pub mod Providers
pub mod Attribution
pub mod Fetcher
pub mod Search
pub mod Calibration
pub mod Recheck
pub mod Relay
pub mod Review
pub mod Confirm
pub mod Intel
