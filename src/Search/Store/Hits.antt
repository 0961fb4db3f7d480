-- ===== src/Search/Store/Hits.antt =====
-- What a provider's matches write, and what a user says of a hit (fan_out, record_infringements and
-- record_feedback of imageshield/search/store.py, status_for of search/feedback.py). The hash, the
-- domain and the canonical form of a URL are functions of it, which the model takes; whether a score
-- fits the column is tested, its rounding to the column's four decimals is not modelled.
use mathlib.Core.Option.{none-ne-some}
use silver_invention.Prelude.{
  ℕ, ◌+◌, Option, none, some, Bool, true, false, ◌&&◌, List, [], ◌∷◌, ◌++◌, if◌then◌else◌, ◌==◌,
  length, map, ◌≡◌,
}
use silver_invention.Prelude.Dict.{Dict, lookup, update}
use silver_invention.Calibration.Bands.{
  Band, review, StoredBand, known, ScoreKind, numeric, categorical, Decimal, PolicyEntry,
  BandDecision, band_for_attestation, RollUpReason, roll_up,
}
use silver_invention.Search.Store.{
  Tables, Infringement, Attestation, ContentUrl, KeyedOn, page_url, image_url, HitStatus, fresh,
  dismissed_not_me, acknowledged, authorised, user_resolved, Signal, not_me, confirmed, uncertain,
  is_authorised, resolved, unconfirmed, Run,
}
pub mod FanOut
pub mod Rows
pub mod Keys
pub mod Invariant
pub mod Signals
pub mod Counts
pub mod Rescan
pub mod Frame
pub mod Total
pub mod Opinions

pub record ProviderMatch : Type 0 where
  pub image_url : ℕ
  pub page_urls : List ℕ
  pub provider_score : Option Decimal
  pub provider_category : Option ℕ
  pub query_quality : Option ℕ

pub record InfringementKey : Type 0 where
  pub url_hash : ℕ
  pub key_url : ℕ
  pub keyed_on : KeyedOn
  pub hit : ProviderMatch

pub record ProviderDescriptor : Type 0 where
  pub provider_id : ℕ
  pub score_kind : ScoreKind
  pub score_version : ℕ

-- urlhash.py, as far as the store uses it, and the database's test whether a score, rounded to four
-- decimals, fits the column NUMERIC(6,4).
pub record Urls : Type 0 where
  pub url_hash : ℕ → ℕ
  pub source_domain : ℕ → ℕ
  pub canonicalise : ℕ → ℕ
  pub score_fits : Decimal → Bool

abbrev on_page : ℕ → ℕ × KeyedOn
on_page page = (page, page_url)

-- The targets of a match: its pages, or its image where no page is reported.
abbrev pub targets : ProviderMatch → List (ℕ × KeyedOn)
targets m = elim m.page_urls [
  | [] ↦ (m.image_url, image_url) ∷ []
  | _ ∷ _ ↦ map on_page m.page_urls
]

abbrev pub seen : ℕ → List InfringementKey → Bool
seen digest [] = false
seen digest (k ∷ ks) = if k.url_hash == digest then true else seen digest ks

module _ (urls : Urls) where
  -- The inner loop, from the keys so far, in their order.
  unfoldable pub add_targets :
      ProviderMatch → List (ℕ × KeyedOn) → List InfringementKey → List InfringementKey
  add_targets m [] keys = keys
  add_targets m ((url, on) ∷ ts) keys = add_targets m ts (
      if seen (urls.url_hash url) keys
      then keys
      else keys
        ++ (record { url_hash = urls.url_hash url; key_url = url; keyed_on = on; hit = m } ∷ []))

  unfoldable pub add_matches : List ProviderMatch → List InfringementKey → List InfringementKey
  unfolding add_targets
  add_matches [] keys = keys
  add_matches (m ∷ ms) keys = add_matches ms (add_targets m (targets m) keys)

  unfoldable pub fan_out : List ProviderMatch → List InfringementKey
  unfolding add_matches
  fan_out matches = add_matches matches []

-- The row of a user's page: UNIQUE (user_ref, url_hash).
abbrev pub is_hit : ℕ → ℕ → Infringement → Bool
is_hit user hash row = row.user_ref == user && row.url_hash == hash

abbrev pub find_hit : ℕ → ℕ → Dict Infringement → Option ℕ
find_hit user hash [] = none
find_hit user hash ((id, row) ∷ rows) =
    if is_hit user hash row then some id else find_hit user hash rows

abbrev pub touch_url : ℕ → ContentUrl → ContentUrl
touch_url now row = record row { last_seen_at = now }

abbrev pub upsert_found : ℕ → ContentUrl → Option ContentUrl → Dict ContentUrl → Dict ContentUrl
upsert_found hash new none rows = (hash, new) ∷ rows
upsert_found hash new (some old) rows = update hash (touch_url new.last_seen_at) rows

-- _UPSERT_URL_SQL
abbrev pub upsert_url : ℕ → ContentUrl → Dict ContentUrl → Dict ContentUrl
upsert_url hash new rows = upsert_found hash new (lookup hash rows) rows

abbrev pub touch : ℕ → Infringement → Infringement
touch now row = record row { last_seen_at = now; seen_count = row.seen_count + 1 }

-- CHECK attestation_score_shape
abbrev pub has_shape : ScoreKind → Option Decimal → Option ℕ → Bool
has_shape numeric none category = false
has_shape numeric (some s) category = true
has_shape categorical score none = false
has_shape categorical score (some c) = true

abbrev pub same_key : Attestation → Attestation → Bool
same_key a b = a.infringement_id == b.infringement_id && a.provider_id == b.provider_id

-- DO UPDATE: the key and `score_kind` stay.
abbrev pub confirm : Attestation → Attestation → Attestation
confirm new old = record new { score_kind = old.score_kind; confirm_count = old.confirm_count + 1 }

abbrev pub shaped : Attestation → Bool
shaped a = has_shape a.score_kind a.provider_score a.provider_category

abbrev pub behind : Attestation → Option (List Attestation) → Option (List Attestation)
behind a none = none
behind a (some rows) = some (a ∷ rows)

-- The search for the row of the key; `none` where the updated row breaks the CHECK.
unfoldable pub merge : Attestation → List Attestation → Option (List Attestation)
merge new [] = some (new ∷ [])
merge new (old ∷ rows) =
    let rest = merge new rows in
    if same_key new old
    then (if shaped (confirm new old) then some (confirm new old ∷ rows) else none)
    else behind old rest

-- _UPSERT_ATTESTATION_SQL: the CHECK holds of the proposed row too.
unfoldable pub upsert_attestation : Attestation → List Attestation → Option (List Attestation)
unfolding merge
upsert_attestation new rows = if shaped new then merge new rows else none

abbrev pub fits : Urls → Option Decimal → Bool
fits urls none = true
fits urls (some score) = urls.score_fits score

abbrev pub has_provider : ℕ → List ℕ → Bool
has_provider pid [] = false
has_provider pid (p ∷ pids) = if p == pid then true else has_provider pid pids

abbrev pub is_found : Option Run → Bool
is_found none = false
is_found (some r) = true

abbrev pub when_accepted : Bool → Option Tables → Option Tables
when_accepted false o = none
when_accepted true o = o

pub when_accepted-some :
    (b : Bool) (o : Option Tables) (t : Tables) → when_accepted b o ≡ some t → o ≡ some t
when_accepted-some false o t e = absurd (none-ne-some t e)
when_accepted-some true o t e = e

-- _ATTESTATION_BANDS_SQL
abbrev pub bands_of : ℕ → List Attestation → List StoredBand
bands_of id [] = []
bands_of id (a ∷ rows) =
    if a.infringement_id == id then known a.band ∷ bands_of id rows else bands_of id rows

abbrev pub set_band : Band × RollUpReason → Infringement → Infringement
set_band (band, reason) row = record row { band = band; band_reason = some reason }

module _ (urls : Urls) (now run user : ℕ) (provider : ProviderDescriptor)
    (policy : Dict PolicyEntry) where
  abbrev pub new_hit : InfringementKey → Infringement
  new_hit key = record {
    user_ref = user;
    url_hash = key.url_hash;
    page_url = key.key_url;
    image_url = key.hit.image_url;
    keyed_on = key.keyed_on;
    last_seen_at = now;
    seen_count = 1;
    band = review;
    band_reason = none;
    status = fresh;
    confirm_state = unconfirmed;
  }

  abbrev pub upsert_at : InfringementKey → Option ℕ → Tables → ℕ × Tables
  upsert_at key none t = (
    t.next_id,
    record t {
      next_id = t.next_id + 1;
      infringements = (t.next_id, new_hit key) ∷ t.infringements;
    },
  )
  upsert_at key (some id) t =
      (id, record t { infringements = update id (touch now) t.infringements })

  -- _UPSERT_INFRINGEMENT_SQL: the row's id.
  unfoldable pub upsert_infringement : InfringementKey → Tables → ℕ × Tables
  upsert_infringement key t = upsert_at key (find_hit user key.url_hash t.infringements) t

  abbrev pub decision_of : InfringementKey → BandDecision
  decision_of key =
      band_for_attestation (lookup provider.provider_id policy) provider.score_kind
        key.hit.provider_score key.hit.provider_category

  abbrev pub new_attestation : ℕ → InfringementKey → Attestation
  new_attestation id key = record {
    infringement_id = id;
    provider_id = provider.provider_id;
    score_kind = provider.score_kind;
    provider_score = key.hit.provider_score;
    provider_category = key.hit.provider_category;
    query_quality = key.hit.query_quality;
    score_version = provider.score_version;
    last_confirmed_at = now;
    confirm_count = 1;
    last_run_id = run;
    band = (decision_of key).band;
    calibration_version = (decision_of key).calibration_version;
  }

  abbrev pub put_url : InfringementKey → Tables → Tables
  put_url key t = record t {
    content_urls =
        upsert_url key.url_hash
          (record {
            url = key.key_url;
            source_domain = urls.source_domain key.key_url;
            canonical_url = urls.canonicalise key.key_url;
            last_seen_at = now;
          })
          t.content_urls;
  }

  -- The roll-up and _SET_INFRINGEMENT_BAND_SQL, after the attestations are `rows`.
  abbrev pub rolled : ℕ → List Attestation → Tables → Tables
  rolled id rows t = record t {
    attestations = rows;
    infringements = update id (set_band (roll_up (bands_of id rows))) t.infringements;
  }

  abbrev pub after_upsert : ℕ × Tables → InfringementKey → Option Tables
  after_upsert (id, t) key = elim (upsert_attestation (new_attestation id key) t.attestations) [
    | none ↦ none
    | some rows ↦ some (rolled id rows t)
  ]

  -- The foreign keys of `attestations` on the provider and on the run, and the range of its score.
  abbrev pub accepted : InfringementKey → Tables → Bool
  accepted key t =
      fits urls key.hit.provider_score
      && (has_provider provider.provider_id t.providers && is_found (lookup run t.runs))

  -- The loop's body for one key; `none` where a constraint of the tables fails.
  unfoldable pub write_key : InfringementKey → Tables → Option Tables
  unfolding upsert_infringement
  write_key key t =
      when_accepted (accepted key t) (after_upsert (upsert_infringement key (put_url key t)) key)

  unfoldable pub write_keys : List InfringementKey → Tables → Option Tables
  write_keys [] t = some t
  write_keys (key ∷ keys) t = elim (write_key key t) [ none ↦ none | some t' ↦ write_keys keys t' ]

  abbrev pub counted : ℕ → Option Tables → Option (ℕ × Tables)
  counted n none = none
  counted n (some t) = some (n, t)

  -- One transaction: where it raises, nothing is written.
  unfoldable pub record_infringements : List ProviderMatch → Tables → Option (ℕ × Tables)
  unfolding fan_out write_keys
  record_infringements matches t =
      let keys = fan_out urls matches in counted (length keys) (write_keys keys t)

unfoldable pub status_for : Signal → Option HitStatus
status_for not_me = some dismissed_not_me
status_for confirmed = some acknowledged
status_for uncertain = none
status_for is_authorised = some authorised
status_for resolved = some user_resolved

abbrev pub set_status : HitStatus → Infringement → Infringement
set_status status row = record row { status = status }

abbrev pub owned : ℕ → Option Infringement → Option HitStatus
owned user none = none
owned user (some row) = if row.user_ref == user then some row.status else none

abbrev pub add_feedback : ℕ → ℕ → Signal → Tables → Tables
add_feedback id user signal t = record t {
  feedback = (record { infringement_id = id; user_ref = user; signal = signal }) ∷ t.feedback;
}

abbrev pub apply_signal : ℕ → HitStatus → Option HitStatus → Tables → HitStatus × Tables
apply_signal id current none t = (current, t)
apply_signal id current (some status) t =
    (status, record t { infringements = update id (set_status status) t.infringements })

abbrev pub give_feedback : ℕ → ℕ → Signal → Option HitStatus → Tables → Option HitStatus × Tables
give_feedback id user signal none t = (none, t)
give_feedback id user signal (some current) t =
    let (status, t') =
      apply_signal id current (status_for signal) (add_feedback id user signal t) in
    (some status, t')

-- One transaction, on a row that is locked.
unfoldable pub record_feedback : ℕ → ℕ → Signal → Tables → Option HitStatus × Tables
unfolding status_for
record_feedback id user signal t =
    give_feedback id user signal (owned user (lookup id t.infringements)) t
