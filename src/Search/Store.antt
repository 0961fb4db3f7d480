-- ===== src/Search/Store.antt =====
-- The tables of a search (imageshield/search/store.py and the migrations that create them). The id of
-- a new row comes from a counter, which stands for `gen_random_uuid()`. Times are the database's
-- clock, in microseconds.
use silver_invention.Prelude.{ℕ, Option, none, some, Bool, List}
use silver_invention.Prelude.Dict.{Dict}
use silver_invention.Calibration.Bands.{Band, ScoreKind, Decimal, RollUpReason}
use silver_invention.Search.Cadence.{ScanTier, DateTime}
pub mod Hits
pub mod Runs
pub mod Steps
mod Examples

pub data RunStatus : Type 0 where
  queued running completed refused : RunStatus

pub data KeyedOn : Type 0 where
  page_url image_url : KeyedOn

pub data HitStatus : Type 0 where
  fresh dismissed_not_me acknowledged authorised user_resolved : HitStatus

pub data Signal : Type 0 where
  not_me confirmed uncertain is_authorised resolved : Signal

-- `other` is a later state of the confirm pipeline.
pub data ConfirmState : Type 0 where
  unconfirmed : ConfirmState
  other : ℕ → ConfirmState

pub record Seed : Type 0 where
  pub user_ref : ℕ
  pub seed_kind : ℕ
  pub source_object_ref : ℕ
  pub created_at : DateTime
  pub scan_tier : ScanTier
  pub consecutive_empty_scans : ℕ
  pub next_scan_after : Option DateTime
  pub tier_next_scan_after : Option DateTime

pub record Run : Type 0 where
  pub seed_id : ℕ
  pub user_ref : ℕ
  pub seed_url : ℕ
  pub status : RunStatus
  pub providers_attempted : List ℕ
  pub providers_succeeded : List ℕ
  pub matches_found : ℕ
  pub claimed_at : Option ℕ
  pub completed_at : Option ℕ

pub record ContentUrl : Type 0 where
  pub url : ℕ
  pub source_domain : ℕ
  pub canonical_url : ℕ
  pub last_seen_at : ℕ

pub record Infringement : Type 0 where
  pub user_ref : ℕ
  pub url_hash : ℕ
  pub page_url : ℕ
  pub image_url : ℕ
  pub keyed_on : KeyedOn
  pub last_seen_at : ℕ
  pub seen_count : ℕ
  pub band : Band
  pub band_reason : Option RollUpReason
  pub status : HitStatus
  pub confirm_state : ConfirmState

pub record Attestation : Type 0 where
  pub infringement_id : ℕ
  pub provider_id : ℕ
  pub score_kind : ScoreKind
  pub provider_score : Option Decimal
  pub provider_category : Option ℕ
  pub query_quality : Option ℕ
  pub score_version : ℕ
  pub last_confirmed_at : ℕ
  pub confirm_count : ℕ
  pub last_run_id : ℕ
  pub band : Band
  pub calibration_version : Option ℕ

-- A row of the outbox: the queue and the event with its id.
pub data OutboxMessage : Type 0 where
  run_requested confirm_requested : ℕ → OutboxMessage

pub record Feedback : Type 0 where
  pub infringement_id : ℕ
  pub user_ref : ℕ
  pub signal : Signal

-- A refusal in the audit log: whose, for which run, why.
pub record Refusal : Type 0 where
  pub subject_ref : ℕ
  pub run_id : ℕ
  pub reason : ℕ

-- `providers` has the ids of the control store's table; `subjects` has the discovery eligibility of each
-- subject; the logs have the last row first.
pub record Tables : Type 0 where
  pub next_id : ℕ
  pub providers : List ℕ
  pub subjects : Dict Bool
  pub seeds : Dict Seed
  pub runs : Dict Run
  pub content_urls : Dict ContentUrl
  pub infringements : Dict Infringement
  pub attestations : List Attestation
  pub feedback : List Feedback
  pub outbox : List OutboxMessage
  pub audit_log : List Refusal
