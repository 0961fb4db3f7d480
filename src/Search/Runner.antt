-- ===== src/Search/Runner.antt =====
-- The execution of a claimed run (imageshield/search/runner.py) over the guard chain and the control
-- store of Providers. The search store is the interface that the code takes; an adapter is a function
-- of the seed's URL. No other worker writes between two statements of the run.
use silver_invention.Prelude.{
  ℕ, ◌+◌, Option, none, some, Bool, true, false, List, [], ◌∷◌, ◌++◌, if◌then◌else◌, ltb, length,
}
use silver_invention.Prelude.Int.{ℤ}
use silver_invention.Prelude.Dict.{Dict, lookup, insert}
use silver_invention.Providers.Breaker.{CallStatus, ok, error}
use silver_invention.Providers.Models.{
  ProviderRuntime, ProviderResult, Decision, dispatch, skip, SkipReason, Detail, adapter_text,
}
use silver_invention.Providers.Store.{World, Settings, runtimes, record_skip, record_outcome}
use silver_invention.Providers.Gate.{decide}
use silver_invention.Calibration.Bands.{ScoreKind}
use silver_invention.Search.Cadence.{CadencePolicy, DateTime, should_retier}
pub mod Log
pub mod Loop
pub mod Decisions
pub mod Coverage
mod Examples

pub record ClaimedRun : Type 0 where
  pub run_id : ℕ
  pub user_ref : ℕ
  pub seed_id : ℕ
  pub seed_url : ℕ
  pub discovery_eligible : Bool
  pub providers_attempted : List ℕ

-- `search` is `none` where the adapter raises.
pub record Adapter : Type 0 where
  pub score_kind : ScoreKind
  pub score_version : ℕ
  pub search : ℕ → Option ProviderResult

pub record CadenceInput : Type 0 where
  pub found_matches : Bool
  pub moment : DateTime
  pub policy : CadencePolicy

pub record RunOutcome : Type 0 where
  pub providers_succeeded : List ℕ
  pub providers_skipped : List ℕ
  pub matches_recorded : ℕ

-- The operations of the SearchStore protocol that a run calls, on a state of their own; each is `none`
-- where it raises.
pub record SearchStore : Type 1 where
  pub St : Type 0
  pub refuse_run : ℕ → ℕ → St → Option St
  -- run, user, provider with its score kind and version, matches: how many were recorded
  pub record_infringements : ℕ → ℕ → ℕ × ScoreKind × ℕ → List ℕ → St → Option (ℕ × St)
  pub complete_run : ℕ → ℕ → List ℕ → Option CadenceInput → Bool → St → Option St

-- The process's clock at the start, the database's clock when it serves a provider's claim and
-- outcome, the run's moment and its UTC date.
pub record Clock : Type 0 where
  pub monotonic : ℕ
  pub claim_at : ℕ → ℕ
  pub record_at : ℕ → ℕ
  pub moment : DateTime
  pub day : ℕ

-- An `error` result without an HTTP answer: of a call that raised (text 0), or for want of an adapter
-- (text 1).
abbrev pub failed_result : ℕ → ℕ → ProviderResult
failed_result text pid = record {
  provider_id = pid;
  status = error;
  matches = [];
  raw_response = text;
  http_status = none;
  latency_ms = 0;
  attempts = 1;
  error_detail = some (adapter_text text);
}

abbrev pub call_provider : Adapter → ℕ → ℕ → ProviderResult
call_provider adapter pid url = elim (adapter.search url) [
  | some result ↦ result
  | none ↦ failed_result 0 pid
]

abbrev pub result_for : Dict Adapter → ℕ → ℕ → ProviderResult
result_for providers url pid = elim (lookup pid providers) [
  | some adapter ↦ call_provider adapter pid url
  | none ↦ failed_result 1 pid
]

-- The decisions, one provider after another.
pub decide_all : Settings → Clock → Dict ProviderRuntime → List ℕ → World → List Decision × World
decide_all s c rows [] w = ([], w)
decide_all s c rows (pid ∷ pids) w =
    let (d, w') = decide s (c.claim_at pid) c.day pid (lookup pid rows) w in
    let (ds, w'') = decide_all s c rows pids w' in (d ∷ ds, w'')

-- The dispatches, as provider and cost, and the providers that are skipped.
pub dispatches : List Decision → List (ℕ × Option ℤ)
dispatches [] = []
dispatches (dispatch pid cost probe ∷ ds) = (pid, cost) ∷ dispatches ds
dispatches (skip pid reason detail ∷ ds) = dispatches ds

pub skipped_ids : List Decision → List ℕ
skipped_ids [] = []
skipped_ids (dispatch pid cost probe ∷ ds) = skipped_ids ds
skipped_ids (skip pid reason detail ∷ ds) = pid ∷ skipped_ids ds

-- Each skip is a transaction of its own; `false` where one raises, after those before it.
pub record_skips : ℕ → List Decision → World → Bool × World
record_skips run [] w = (true, w)
record_skips run (dispatch pid cost probe ∷ ds) w = record_skips run ds w
record_skips run (skip pid reason detail ∷ ds) w =
    elim (record_skip (some run) none pid reason detail w) [
      | none ↦ (false, w)
      | some w' ↦ record_skips run ds w'
    ]

pub results : Dict Adapter → ℕ → List (ℕ × Option ℤ) → List ProviderResult
results providers url [] = []
results providers url ((pid, cost) ∷ ds) = result_for providers url pid ∷ results providers url ds

-- `cost_by_provider`: of two dispatches of one provider the last counts.
pub cost_by_provider : List (ℕ × Option ℤ) → Dict (Option ℤ) → Dict (Option ℤ)
cost_by_provider [] d = d
cost_by_provider ((pid, cost) ∷ ds) d = cost_by_provider ds (insert pid cost d)

abbrev pub cost_of : Option (Option ℤ) → Option ℤ
cost_of none = none
cost_of (some cost) = cost

abbrev pub is_ok : CallStatus → Bool
is_ok ok = true
is_ok _ = false

module _ (store : SearchStore) where
  open store use {St, refuse_run, record_infringements, complete_run}

  -- What the loop over the results has gathered.
  pub record Gathered : Type 0 where
    pub succeeded : List ℕ
    pub matches_recorded : ℕ
    pub world : World
    pub state : St

  -- The search store's write for a result that is `ok`.
  abbrev pub gather : ℕ → World → Gathered → Option (ℕ × St) → Bool × Gathered
  gather pid w g none = (false, record g { world = w })
  gather pid w g (some (n, st)) = (
    true,
    record {
      succeeded = g.succeeded ++ (pid ∷ []);
      matches_recorded = g.matches_recorded + n;
      world = w;
      state = st;
    },
  )

  -- One result; `false` where the code raises: a LookupError, a KeyError for the adapter, or an error
  -- of the search store.
  unfoldable pub record_result :
      Settings
      → Clock
      → ClaimedRun
      → Dict Adapter
      → Dict (Option ℤ)
      → ProviderResult
      → Gathered
      → Bool × Gathered
  record_result s c run providers costs r g =
      elim (record_outcome s (c.record_at r.provider_id) (some run.run_id) none r
        (cost_of (lookup r.provider_id costs)) c.day g.world) [
          | none ↦ (false, g)
          | some w ↦
              if is_ok r.status
              then (elim (lookup r.provider_id providers) [
                | none ↦ (false, record g { world = w })
                | some adapter ↦ gather r.provider_id w g (
                    record_infringements run.run_id run.user_ref
                      (r.provider_id, adapter.score_kind, adapter.score_version) r.matches g.state)
              ])
              else (true, record g { world = w })
        ]

  pub record_results :
      Settings
      → Clock
      → ClaimedRun
      → Dict Adapter
      → Dict (Option ℤ)
      → List ProviderResult
      → Gathered
      → Bool × Gathered
  record_results s c run providers costs [] g = (true, g)
  record_results s c run providers costs (r ∷ rs) g =
      let (goes_on, g') = record_result s c run providers costs r g in
      elim goes_on [ true ↦ record_results s c run providers costs rs g' | false ↦ (false, g') ]

  abbrev pub retier_of : Clock → CadencePolicy → Gathered → Option CadenceInput
  retier_of c cadence g =
      if should_retier (length g.succeeded)
      then some
          (record { found_matches = ltb 0 g.matches_recorded; moment = c.moment; policy = cadence })
      else none

  -- The end of a run, where everything before the completion went through.
  abbrev pub completed : List ℕ → Gathered → Option St → Option RunOutcome × World × St
  completed skipped g none = (none, g.world, g.state)
  completed skipped g (some st) = (
    some (record {
      providers_succeeded = g.succeeded;
      providers_skipped = skipped;
      matches_recorded = g.matches_recorded;
    }),
    g.world,
    st,
  )

  abbrev pub refused : World → St → Option St → Option RunOutcome × World × St
  refused w st none = (none, w, st)
  refused w st (some st') = (
    some (record { providers_succeeded = []; providers_skipped = []; matches_recorded = 0 }),
    w,
    st',
  )

  -- After the decisions: the skips, the calls, their outcomes and the completion.
  unfoldable pub carry_out :
      Settings
      → Clock
      → ClaimedRun
      → Dict Adapter
      → CadencePolicy
      → Bool
      → List Decision
      → World
      → St
      → Option RunOutcome × World × St
  unfolding record_skips results cost_by_provider record_results dispatches skipped_ids
  carry_out s c run providers cadence enqueue_confirm ds w st =
      let (skipped, w1) = record_skips run.run_id ds w in
      let (finished, g) =
        record_results s c run providers (cost_by_provider (dispatches ds) [])
          (results providers run.seed_url (dispatches ds))
          (record { succeeded = []; matches_recorded = 0; world = w1; state = st }) in
      if skipped
      then (if finished
          then completed (skipped_ids ds) g (
              complete_run run.run_id run.seed_id g.succeeded (retier_of c cadence g)
                enqueue_confirm g.state)
          else (none, g.world, g.state))
      else (none, w1, st)

  -- The outcome, `none` where the code raises, with the tables and the search store after it.
  unfoldable pub execute_run :
      Settings
      → Clock
      → ClaimedRun
      → Dict Adapter
      → CadencePolicy
      → Bool
      → World
      → St
      → Option RunOutcome × World × St
  unfolding carry_out decide_all
  execute_run s c run providers cadence enqueue_confirm w st =
      if run.discovery_eligible
      then (let (rows, w0) = runtimes s c.monotonic w in
          let (ds, w1) = decide_all s c rows run.providers_attempted w0 in
          carry_out s c run providers cadence enqueue_confirm ds w1 st)
      else refused w st (refuse_run run.run_id run.user_ref st)
