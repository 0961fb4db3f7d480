-- ===== src/Search/Runner/Decisions.antt =====
-- The decisions of a run, and the skips that it records (execute_run of search/runner.py).
use silver_invention.Prelude.{
  ℕ, ◌+◌, ◌≡◌, ◌≢◌, refl, ◌∙◌, Option, none, some, Bool, false, List, [], ◌∷◌, map, if◌then◌else◌,
  ◌==◌, arith, All, true, some_of_ne_none,
}
use silver_invention.Prelude.Int.{ℤ}
use silver_invention.Prelude.Dict.{Dict, lookup}
use silver_invention.Providers.Models.{
  ProviderRuntime, Decision, dispatch, skip, SkipReason, skip_status,
}
use silver_invention.Providers.Store.{World, Settings, record_skip, skip_logged}
use silver_invention.Providers.Gate.{decide}
use silver_invention.Search.Runner.{Clock, dispatches, skipped_ids, decide_all, record_skips, is_ok}
use silver_invention.Search.Runner.Log.{LogOf, count, HasRow, Keeps, decide-Keeps, decide_calls}

-- A decision on a provider, whose row was read as `o`.
abbrev About : ℕ → Option ProviderRuntime → Decision → Type 0
About pid o (dispatch p cost probe) = (p ≡ pid) × (o ≢ none)
About pid o (skip p reason detail) = p ≡ pid

decide-About :
    (s : Settings) (t day pid : ℕ) (o : Option ProviderRuntime) (w : World)
    → About pid o (decide s t day pid o w).0
unfolding decide
decide-About s t day pid none w = refl
decide-About s t day pid (some r) w = ground arith

abbrev pub ids : List (ℕ × Option ℤ) → List ℕ
ids ds = map (λ d. d.0) ds

count-cons :
    (pid q : ℕ) (o : Option ProviderRuntime) (d : Decision) (ds : List Decision) (n : ℕ)
    → About pid o d
    → count q (skipped_ids ds) + count q (ids (dispatches ds)) ≡ n
    → count q (skipped_ids (d ∷ ds)) + count q (ids (dispatches (d ∷ ds)))
      ≡ (if pid == q then 1 else 0) + n
unfolding count skipped_ids dispatches
count-cons pid q o (dispatch p cost probe) ds n (e, row) h = ground arith
count-cons pid q o (skip p reason detail) ds n e h = ground arith

known-cons :
    (pid : ℕ) (o : Option ProviderRuntime) (d : Decision) (ds : List Decision) (w : World)
    → About pid o d
    → HasRow pid w
    → All (λ e. HasRow e.0 w) (dispatches ds)
    → All (λ e. HasRow e.0 w) (dispatches (d ∷ ds))
unfolding dispatches
known-cons pid o (dispatch p cost probe) ds w (e, row) known h = (rw e known, h)
known-cons pid o (skip p reason detail) ds w e known h = h

skipped-cons :
    (pid : ℕ) (o : Option ProviderRuntime) (d : Decision) (ds : List Decision) (w : World)
    → About pid o d
    → HasRow pid w
    → All (λ q. HasRow q w) (skipped_ids ds)
    → All (λ q. HasRow q w) (skipped_ids (d ∷ ds))
unfolding skipped_ids
skipped-cons pid o (dispatch p cost probe) ds w e known h = h
skipped-cons pid o (skip p reason detail) ds w e known h = (rw e known, h)

pub later_rows :
    (w w' : World) (pids : List ℕ)
    → Keeps w w'
    → All (λ q. HasRow q w) pids
    → All (λ q. HasRow q w') pids
later_rows w w' [] keeps known = tt
later_rows w w' (pid ∷ pids) keeps (row, known) = (keeps pid row, later_rows w w' pids keeps known)

-- What the decisions leave for the rest of the run.
pub record Decided (rows : Dict ProviderRuntime) (pids : List ℕ) (w : World)
    (out : List Decision × World) : Type 0 where
  pub calls : out.1.calls ≡ w.calls
  pub keeps : Keeps w out.1
  pub known : All (λ e. HasRow e.0 out.1) (dispatches out.0)
  pub skipped : All (λ q. HasRow q out.1) (skipped_ids out.0)
  pub counted :
      (q : ℕ) → count q (skipped_ids out.0) + count q (ids (dispatches out.0)) ≡ count q pids

pub decide_all-Decided :
    (s : Settings) (c : Clock) (rows : Dict ProviderRuntime) (pids : List ℕ) (w : World)
    → All (λ q. HasRow q w) pids
    → Decided rows pids w (decide_all s c rows pids w)
unfolding decide_all dispatches skipped_ids count
decide_all-Decided s c rows [] w known = record {
  calls = refl;
  keeps = λ q h. h;
  known = tt;
  skipped = tt;
  counted = λ q. refl;
}
decide_all-Decided s c rows (pid ∷ pids) w (row, known) =
    let o = lookup pid rows in
    let d = (decide s (c.claim_at pid) c.day pid o w).0 in
    let w1 = (decide s (c.claim_at pid) c.day pid o w).1 in
    let keeps1 = decide-Keeps s (c.claim_at pid) c.day pid o w in
    let about = decide-About s (c.claim_at pid) c.day pid o w in
    let rest = decide_all-Decided s c rows pids w1 (later_rows w w1 pids keeps1 known) in
    let row' = rest.keeps pid (keeps1 pid row) in
    record {
      calls = rest.calls ∙ decide_calls s (c.claim_at pid) c.day pid o w;
      keeps = λ q h. rest.keeps q (keeps1 q h);
      known = known-cons pid o d _ (decide_all s c rows pids w1).1 about row' rest.known;
      skipped = skipped-cons pid o d _ (decide_all s c rows pids w1).1 about row' rest.skipped;
      counted = λ q. count-cons pid q o d _ _ about (rest.counted q);
    }

abbrev pub missed : ℕ → ℕ × Bool
missed pid = (pid, false)

skip_status_bad : (reason : SkipReason) → is_ok (skip_status reason) ≡ false
skip_status_bad reason = ground arith

-- The skips of providers with a row all go through.
pub record_skips-LogOf :
    (run : ℕ) (ds : List Decision) (w : World)
    → All (λ q. HasRow q w) (skipped_ids ds)
    → (w' : World) × (record_skips run ds w ≡ (true, w'))
      × LogOf run (map missed (skipped_ids ds)) w.calls w'.calls
      × (w'.providers ≡ w.providers)
unfolding record_skips record_skip LogOf skipped_ids
record_skips-LogOf run [] w known = (w, refl, refl, refl)
record_skips-LogOf run (dispatch pid cost probe ∷ ds) w known = record_skips-LogOf run ds w known
record_skips-LogOf run (skip pid reason detail ∷ ds) w (row, known) =
    let (r, found) = some_of_ne_none (lookup pid w.providers) row in
    let (w', e, logged, same) =
      record_skips-LogOf run ds (skip_logged (some run) none pid reason detail w) known in
    (
      w',
      rw (record_skips, record_skip, found) e,
      (_, refl, refl, skip_status_bad reason, logged),
      same,
    )
