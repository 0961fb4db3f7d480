-- ===== src/Search/Runner/Loop.antt =====
-- The loop over the results of a run (execute_run of search/runner.py).
use silver_invention.Providers.Store.{outcome_call}
use silver_invention.Prelude.{
  All, ◌+◌, ◌∙◌, ap, ℕ, ◌≡◌, ◌≢◌, refl, sym, List, [], ◌∷◌, ◌++◌, true, Bool-cases, inl, inr, Bool,
  none, Option, some, if◌then◌else◌, some_of_ne_none, arith,
}
use silver_invention.Prelude.Dict.{Dict, lookup}
use silver_invention.Providers.Models.{ProviderResult}
use silver_invention.Search.Runner.{
  SearchStore, Adapter, Settings, is_ok, World, Clock, ClaimedRun, ℤ, Gathered, record_result,
  cost_of, record_results,
}
use mathlib.Core.List.{append-nil, append_assoc, map}
use silver_invention.Search.Runner.Log.{LogOf, HasRow, Keeps, outcome_recorded, LogOf-append}

-- The providers of the entries that say `ok`.
pub oks : List (ℕ × Bool) → List ℕ
oks [] = []
oks ((pid, good) ∷ entries) = if good then pid ∷ oks entries else oks entries

abbrev pub entry_of : ProviderResult → ℕ × Bool
entry_of r = (r.provider_id, is_ok r.status)

abbrev pub ok_ids : ProviderResult → List ℕ
ok_ids r = if is_ok r.status then r.provider_id ∷ [] else []

ok_ids_append :
    (r : ProviderResult) (entries : List (ℕ × Bool))
    → ok_ids r ++ oks entries ≡ oks (entry_of r ∷ entries)
unfolding oks
ok_ids_append r entries = ground arith

-- A result that can be recorded: its provider has a row, and an adapter if the result is `ok`.
abbrev pub Recordable : Dict Adapter → World → ProviderResult → Type 0
Recordable providers w r =
    HasRow r.provider_id w × (is_ok r.status ≡ true → lookup r.provider_id providers ≢ none)

pub later_Recordable :
    (providers : Dict Adapter) (w w' : World) (rs : List ProviderResult)
    → Keeps w w'
    → All (Recordable providers w) rs
    → All (Recordable providers w') rs
later_Recordable providers w w' [] keeps ok = tt
later_Recordable providers w w' (r ∷ rs) keeps ((row, adapter), ok) =
    ((keeps r.provider_id row, adapter), later_Recordable providers w w' rs keeps ok)

-- With the adapter that it is registered under, the recording of a result that is `ok` goes through on
-- every state of the search store with `Inv`, and keeps it.
abbrev pub Records :
    (store : SearchStore)
    → (store.St → Type 0)
    → ClaimedRun
    → Dict Adapter
    → ProviderResult
    → Type 0
Records store Inv run providers r =
    (a : Adapter) (st : store.St)
    → lookup r.provider_id providers ≡ some a
    → is_ok r.status ≡ true
    → Inv st
    → (n : ℕ) × (st' : store.St) × (store.record_infringements run.run_id run.user_ref
          (r.provider_id, a.score_kind, a.score_version) r.matches st
        ≡ some (n, st'))
      × Inv st'

module _ (store : SearchStore) (Inv : store.St → Type 0) (s : Settings) (c : Clock)
    (run : ClaimedRun) (providers : Dict Adapter) (costs : Dict (Option ℤ)) where
  one_result :
      (r : ProviderResult) (g : Gathered store)
      → Records store Inv run providers r
      → Inv g.state
      → Recordable providers g.world r
      → (g' : Gathered store) × (record_result store s c run providers costs r g ≡ (true, g'))
        × LogOf run.run_id (entry_of r ∷ []) g.world.calls g'.world.calls
        × Keeps g.world g'.world
        × (g'.succeeded ≡ g.succeeded ++ ok_ids r)
        × Inv g'.state
  unfolding LogOf record_result
  one_result r g records inv (has_row, has_adapter) =
      let (w', e, logged, keeps) =
        outcome_recorded s (c.record_at r.provider_id) (some run.run_id) none r
          (cost_of (lookup r.provider_id costs)) c.day g.world has_row in
      let row = outcome_call (some run.run_id) none r (cost_of (lookup r.provider_id costs)) in
      elim (Bool-cases (is_ok r.status)) [
        | inr bad ↦ (
          record g { world = w' },
          rw (record_result, e, bad) refl,
          (row, refl, refl, refl, logged),
          keeps,
          rw bad (sym (append-nil g.succeeded)),
          inv,
        )
        | inl good ↦
            let (adapter, found) =
              some_of_ne_none (lookup r.provider_id providers) (has_adapter good) in
            let (n, st, recorded, kept) = records adapter g.state found good inv in
            (
              record {
                succeeded = g.succeeded ++ (r.provider_id ∷ []);
                matches_recorded = g.matches_recorded + n;
                world = w';
                state = st;
              },
              rw (record_result, e, good, found, recorded) refl,
              (row, refl, refl, refl, logged),
              keeps,
              rw good refl,
              kept,
            )
      ]

  -- With results that can be recorded, in both stores, the loop goes through: it logs one row for each, in order, and
  -- gathers the providers whose result is `ok`.
  pub record_results_lem :
      (rs : List ProviderResult) (g : Gathered store)
      → All (Records store Inv run providers) rs
      → Inv g.state
      → All (Recordable providers g.world) rs
      → (g' : Gathered store) × (record_results store s c run providers costs rs g ≡ (true, g'))
        × LogOf run.run_id (map entry_of rs) g.world.calls g'.world.calls
        × (g'.succeeded ≡ g.succeeded ++ oks (map entry_of rs))
        × Inv g'.state
  unfolding record_results oks LogOf
  record_results_lem [] g records inv ok = (g, refl, refl, sym (append-nil g.succeeded), inv)
  record_results_lem (r ∷ rs) g (record_r, records) inv (good, ok) =
      let (g1, e1, log1, keeps, s1, inv1) = one_result r g record_r inv good in
      let (g2, e2, log2, s2, inv2) =
        record_results_lem rs g1 records inv1
          (later_Recordable providers g.world g1.world rs keeps ok) in
      (
        g2,
        rw (record_results, ap {B = Bool} (λ x. x.0) e1, ap {B = Gathered store} (λ x. x.1) e1, e2)
            refl,
        LogOf-append run.run_id (entry_of r ∷ []) (map entry_of rs) _ _ _ log1 log2,
        rw (s2, s1)
            (append_assoc g.succeeded (ok_ids r) (oks (map entry_of rs))
              ∙ ap (λ x. g.succeeded ++ x) (ok_ids_append r (map entry_of rs))),
        inv2,
      )
