-- ===== src/Search/Runner/Coverage.antt =====
-- A run reports on every provider that it attempts (execute_run of search/runner.py).
use silver_invention.Search.Runner.Loop.{oks}
use silver_invention.Prelude.{ℕ, ◌+◌, ◌≡◌, ◌≢◌, Option, none, some, Bool, List, ◌++◌, map}
use silver_invention.Providers.Store.{World}
use silver_invention.Search.Runner.Log.{count, LogOf}
use silver_invention.Search.Runner.{
  Adapter, ProviderResult, SearchStore, ClaimedRun, RunOutcome, CadenceInput,
}
use silver_invention.Prelude.Dict.{Dict, lookup}
use silver_invention.Search.Runner.Decisions.{missed}

-- An adapter's results are about the provider it is registered for.
abbrev pub OwnIds : Dict Adapter → ℕ → Type 0
OwnIds providers url =
    (pid : ℕ) (a : Adapter) (r : ProviderResult)
    → lookup pid providers ≡ some a
    → a.search url ≡ some r
    → r.provider_id ≡ pid

-- What a run that went through has reported: the rows that it added to the log are one for each
-- skipped provider, then one for each provider called; those that succeeded are the called ones whose
-- row is `ok`; and every attempted provider is counted once, as skipped or as called.
pub record Covered (run : ClaimedRun) (w w' : World) (o : RunOutcome) : Type 0 where
  pub called : List (ℕ × Bool)
  pub logged : LogOf run.run_id (map missed o.providers_skipped ++ called) w.calls w'.calls
  pub succeeded : o.providers_succeeded ≡ oks called
  pub every :
      (q : ℕ)
      → count q o.providers_skipped + count q (map (λ e. e.0) called)
        ≡ count q run.providers_attempted

-- What a run relies on in the search store: on every state with `Inv` it records the matches that a
-- registered adapter answers with, keeping `Inv`, and it completes the run.
pub record Serves (store : SearchStore) (Inv : store.St → Type 0) (run : ClaimedRun)
    (providers : Dict Adapter) (enqueue_confirm : Bool) : Type 0 where
  pub records :
      (pid : ℕ) (a : Adapter) (r : ProviderResult) (st : store.St)
      → lookup pid providers ≡ some a
      → a.search run.seed_url ≡ some r
      → Inv st
      → (n : ℕ) × (st' : store.St) × (store.record_infringements run.run_id run.user_ref
            (pid, a.score_kind, a.score_version)
            r.matches
            st
          ≡ some (n, st'))
        × Inv st'
  pub completes :
      (succeeded : List ℕ) (retier : Option CadenceInput) (st : store.St)
      → Inv st
      → store.complete_run run.run_id run.seed_id succeeded retier enqueue_confirm st ≢ none
