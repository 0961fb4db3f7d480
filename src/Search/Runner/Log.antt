-- ===== src/Search/Runner/Log.antt =====
-- What a run writes to the log of calls (search/runner.py over providers/store.py).
use silver_invention.Prelude.{
  ℕ, ◌+◌, ◌≡◌, ◌≢◌, Option, none, some, Bool, List, [], ◌∷◌, ◌++◌, if◌then◌else◌, ◌==◌, arith,
  Option-cases, some_of_ne_none, inl, inr,
}
use silver_invention.Prelude.Dict.{Dict, lookup, lookup-update, update}
use silver_invention.Providers.Models.{ProviderRuntime, ProviderResult}
use silver_invention.Providers.Store.{
  World, Settings, Call, record_outcome, claim_half_open_probe, invalidate, to_half_open,
  outcome_call, written, outcome_transition,
}
use silver_invention.Providers.Gate.{decide}
use silver_invention.Search.Runner.{ℤ, is_ok}

-- One row of the log for each entry, in this order, between two logs (the newest row first): it
-- belongs to the run and to the provider, and its status is `ok` where the entry says so.
unfoldable pub LogOf : ℕ → List (ℕ × Bool) → List Call → List Call → Type 0
LogOf run [] before after = after ≡ before
LogOf run ((pid, good) ∷ entries) before after =
    (c : Call) × (c.run_id ≡ some run)
    × (c.provider_id ≡ pid)
    × (is_ok c.status ≡ good)
    × LogOf run entries (c ∷ before) after

pub LogOf-append :
    (run : ℕ) (xs ys : List (ℕ × Bool)) (a b c : List Call)
    → LogOf run xs a b
    → LogOf run ys b c
    → LogOf run (xs ++ ys) a c
unfolding LogOf
LogOf-append run [] ys a b c l m = rw l at m
LogOf-append run ((pid, good) ∷ xs) ys a b c (row, er, ep, eg, l) m =
    (row, er, ep, eg, LogOf-append run xs ys (row ∷ a) b c l m)

unfoldable pub count : ℕ → List ℕ → ℕ
count pid [] = 0
count pid (q ∷ qs) = (if q == pid then 1 else 0) + count pid qs

abbrev pub HasRow : ℕ → World → Type 0
HasRow pid w = lookup pid w.providers ≢ none

-- No row of `providers` is lost.
abbrev pub Keeps : World → World → Type 0
Keeps w w' = (q : ℕ) → HasRow q w → HasRow q w'

claim-Keeps : (s : Settings) (t pid : ℕ) (w : World) → Keeps w (claim_half_open_probe s t pid w).1
unfolding claim_half_open_probe invalidate
claim-Keeps s t pid w q h = ground (arith, lookup-update pid q to_half_open w.providers)

pub decide-Keeps :
    (s : Settings) (t day pid : ℕ) (o : Option ProviderRuntime) (w : World)
    → Keeps w (decide s t day pid o w).1
unfolding decide
decide-Keeps s t day pid none w q h = h
decide-Keeps s t day pid (some r) w q h = ground (arith, claim-Keeps s t pid w q)

pub decide_calls :
    (s : Settings) (t day pid : ℕ) (o : Option ProviderRuntime) (w : World)
    → (decide s t day pid o w).1.calls ≡ w.calls
unfolding decide claim_half_open_probe invalidate
decide_calls s t day pid o w = ground arith

update_found :
    (p q : ℕ) (f : ProviderRuntime → ProviderRuntime) (d : Dict ProviderRuntime)
    → lookup q d ≢ none
    → lookup q (update p f d) ≢ none
update_found p q f d h e = ground (arith, lookup-update p q f d)

outcome_rows :
    (s : Settings) (t : ℕ) (run intel : Option ℕ) (r : ProviderResult) (cost : Option ℤ) (day : ℕ)
    (w w' : World) (row : ProviderRuntime)
    → record_outcome s t run intel r cost day w ≡ some w'
    → lookup r.provider_id w.providers ≡ some row
    → w'.providers ≡ update r.provider_id (written (outcome_transition s row r) t) w.providers
unfolding record_outcome invalidate
outcome_rows s t run intel r cost day w w' row e found = ground arith

outcome-Keeps :
    (s : Settings) (t : ℕ) (run intel : Option ℕ) (r : ProviderResult) (cost : Option ℤ) (day : ℕ)
    (w w' : World) (row : ProviderRuntime)
    → record_outcome s t run intel r cost day w ≡ some w'
    → lookup r.provider_id w.providers ≡ some row
    → Keeps w w'
outcome-Keeps s t run intel r cost day w w' row e found q h =
    rw (outcome_rows s t run intel r cost day w w' row e found)
      (update_found r.provider_id q (written (outcome_transition s row r) t) w.providers h)

outcome_calls :
    (s : Settings) (t : ℕ) (run intel : Option ℕ) (r : ProviderResult) (cost : Option ℤ) (day : ℕ)
    (w w' : World)
    → record_outcome s t run intel r cost day w ≡ some w'
    → w'.calls ≡ outcome_call run intel r cost ∷ w.calls
unfolding record_outcome invalidate
outcome_calls s t run intel r cost day w w' e = ground arith

-- An outcome of a provider that has a row is recorded.
pub outcome_recorded :
    (s : Settings) (t : ℕ) (run intel : Option ℕ) (r : ProviderResult) (cost : Option ℤ) (day : ℕ)
    (w : World)
    → HasRow r.provider_id w
    → (w' : World) × (record_outcome s t run intel r cost day w ≡ some w')
      × (w'.calls ≡ outcome_call run intel r cost ∷ w.calls)
      × Keeps w w'
outcome_recorded s t run intel r cost day w h =
    elim (Option-cases (record_outcome s t run intel r cost day w)) [
      | inl e ↦ absurd (unfold record_outcome in ground arith)
      | inr (w', e) ↦
          let (row, found) = some_of_ne_none (lookup r.provider_id w.providers) h in
          (
            w',
            e,
            outcome_calls s t run intel r cost day w w' e,
            outcome-Keeps s t run intel r cost day w w' row e found,
          )
    ]
