-- ===== src/Search/Store/Steps/Lifecycle.antt =====
-- A run is executed by one worker at a time, and never again once it has ended (claim_run of
-- imageshield/search/store.py).
use silver_invention.Search.Store.Steps.{
  Op, claim, apply_all, make_seed, make_run, no_rows, refuse_it, record_hits, complete_it, give,
  set_subject, add_provider, move_hit,
}
use silver_invention.Search.Runner.{ClaimedRun}
use silver_invention.Search.Store.{Run, completed, Tables, refused, running, RunStatus}
use silver_invention.Search.Store.Runs.{
  claim_run, can_claim, start, claim_found, stale_claim, claimable_in,
}
use silver_invention.Prelude.{
  ℕ, ◌+◌, ◌≤◌, ◌≡◌, ◌⊎◌, refl, Option, none, some, false, List, [], ◌∷◌, Option-cases, Bool-cases,
  inl, inr, All, arith, ◌∙◌, All-map,
}
use mathlib.Core.Option.{none-ne-some}
use silver_invention.Prelude.Dict.{lookup, lookup-update}
use silver_invention.Search.Store.Steps.Standing.{
  Stands, LeavesAlone, IsKept, apply_all-Stands, Stands-unclaimed,
}
use silver_invention.Search.Store.Steps.Known.{claim_known, apply_all_known, no_rows-KnownRuns}

abbrev pub Finished : Run → Type 0
Finished r = (r.status ≡ completed) ⊎ (r.status ≡ refused)

-- The claim that was won at `won`, or its end.
abbrev pub Held : ℕ → Run → Type 0
Held won r = ((r.status ≡ running) × (r.claimed_at ≡ some won)) ⊎ Finished r

Finished-IsKept : IsKept Finished
Finished-IsKept = record {
  refusing = λ now r q. inr refl;
  completing = λ now succeeded n r q. inl refl;
}

Held-IsKept : (won : ℕ) → IsKept (Held won)
Held-IsKept won = record {
  refusing = λ now r q. inr (inr refl);
  completing = λ now succeeded n r q. inr (inl refl);
}

status_claim :
    (now : ℕ) (status : RunStatus) (at : Option ℕ)
    → (status ≡ completed) ⊎ (status ≡ refused)
    → claimable_in now status at ≡ false
status_claim now status at q = ground arith

Finished-can_claim : (now : ℕ) (r : Run) → Finished r → can_claim now r ≡ false
unfolding can_claim
Finished-can_claim now r q = status_claim now r.status r.claimed_at q

Held-can_claim :
    (won now : ℕ) (r : Run) → now ≤ won + stale_claim → Held won r → can_claim now r ≡ false
unfolding can_claim
Held-can_claim won now r early q = ground arith

Finished-alone : (id : ℕ) (op : Op) → LeavesAlone Finished id op
Finished-alone id (make_seed now user kind object) = tt
Finished-alone id (make_run user seed providers url) = tt
Finished-alone id (claim now k) = λ e r q. Finished-can_claim now r q
Finished-alone id (refuse_it now k user reason) = tt
Finished-alone id (record_hits urls now run user provider policy matches) = tt
Finished-alone id (complete_it now k seed succeeded retier confirm) = tt
Finished-alone id (give hit user signal) = tt
Finished-alone id (set_subject user eligible) = tt
Finished-alone id (add_provider pid) = tt
Finished-alone id (move_hit hit state) = tt

-- The claims of the run among the operations are not later than `limit`.
abbrev pub Early : ℕ → ℕ → Op → Type 0
Early limit id (claim now k) = k ≡ id → now ≤ limit
Early limit id _ = Unit {0}

Held-alone : (won id : ℕ) (op : Op) → Early (won + stale_claim) id op → LeavesAlone (Held won) id op
Held-alone won id (make_seed now user kind object) early = tt
Held-alone won id (make_run user seed providers url) early = tt
Held-alone won id (claim now k) early = λ e r q. Held-can_claim won now r (early e) q
Held-alone won id (refuse_it now k user reason) early = tt
Held-alone won id (record_hits urls now run user provider policy matches) early = tt
Held-alone won id (complete_it now k seed succeeded retier confirm) early = tt
Held-alone won id (give hit user signal) early = tt
Held-alone won id (set_subject user eligible) early = tt
Held-alone won id (add_provider pid) early = tt
Held-alone won id (move_hit hit state) early = tt

every_alone : (id : ℕ) (ops : List Op) → All (LeavesAlone Finished id) ops
every_alone id [] = tt
every_alone id (op ∷ ops) = (Finished-alone id op, every_alone id ops)

-- What a won claim leaves.
won-Held :
    (won id : ℕ) (t : Tables) (found : Option Run) (c : ClaimedRun)
    → lookup id t.runs ≡ found
    → (claim_found won id found t).0 ≡ some c
    → Stands (Held won) id (claim_found won id found t).1
won-Held won id t none c e h = absurd (none-ne-some c h)
won-Held won id t (some r) c e h = elim (Option-cases (lookup r.seed_id t.seeds)) [
  | inl missing ↦ absurd (none-ne-some c (rw (missing, claim_found) at h))
  | inr (seed, found) ↦ elim (Bool-cases (can_claim won r)) [
    | inl can ↦
        rw (found, can, claim_found)
          (start won r, lookup-update id id (start won) t.runs ∙ (ground arith), inl (refl, refl))
    | inr cannot ↦ absurd (none-ne-some c (rw (found, cannot, claim_found) at h))
  ]
]

-- One worker executes a run: after a claim that is won, whatever operations follow, no claim of the
-- run succeeds for as long as the won one is not stale (all claims of the run meanwhile being no
-- later than that). The tables are those that any operations lead to.
pub claim_once :
    (before ops : List Op) (won now id : ℕ) (c : ClaimedRun)
    → let t = apply_all before no_rows in
      (claim_run won id t).0 ≡ some c
      → All (Early (won + stale_claim) id) ops
      → now ≤ won + stale_claim
      → let t' = apply_all ops (claim_run won id t).1 in claim_run now id t' ≡ (none, t')
unfolding claim_run
claim_once before ops won now id c h early in_time =
    let t = apply_all before no_rows in
    let held = won-Held won id t (lookup id t.runs) c refl h in
    let known = claim_known won id t (apply_all_known before no_rows no_rows-KnownRuns) in
    Stands-unclaimed (Held won) id now _ (λ r q. Held-can_claim won now r in_time q)
      (apply_all-Stands (Held won) (Held-IsKept won) id ops (claim_run won id t).1
        (All-map ops (λ op e. Held-alone won id op e) early) known held)

-- A run that has ended, completed or refused, is never executed again: whatever operations follow, no
-- claim of it succeeds. The tables are those that any operations lead to.
pub ended_unclaimed :
    (before ops : List Op) (now id : ℕ) (r : Run)
    → let t = apply_all before no_rows in
      lookup id t.runs ≡ some r
      → Finished r
      → let t' = apply_all ops t in claim_run now id t' ≡ (none, t')
ended_unclaimed before ops now id r e ended =
    let t = apply_all before no_rows in
    Stands-unclaimed Finished id now _ (Finished-can_claim now) (
      apply_all-Stands Finished Finished-IsKept id ops t (every_alone id ops)
        (apply_all_known before no_rows no_rows-KnownRuns) (r, e, ended))
