-- ===== src/Search/Store/Runs/Completion.antt =====
-- What the completion of a run writes (complete_run of imageshield/search/store.py).
use silver_invention.Search.Store.Runs.Confirming.{
  count_matches-CountOf, requests, asked_lem, CountOf, ToConfirm, is_open, ToConfirm-is_open,
  closed_or_off,
}
use silver_invention.Search.Cadence.{next_sunday, CadenceUpdate, update_for}
use silver_invention.Search.Store.Runs.{
  complete, retiered, count_matches, set_cadence, complete_run, on_seed, apply_cadence, cadence_of,
  finish, age_days,
}
use silver_invention.Search.Runner.{CadenceInput}
use silver_invention.Prelude.{
  ℕ, ◌+◌, ◌≡◌, refl, sym, ap, Option, none, some, Bool, true, false, List, ◌==◌, if◌then◌else◌,
  Option-cases, Bool-cases, inl, inr, arith, ◌∙◌, ◌&&◌, ◌⊎◌, ◌≢◌,
}
use silver_invention.Prelude.Dict.{Dict, lookup, update, lookup-update, Unique, map_option}
use silver_invention.Search.Store.{Tables, Seed, Run, completed}

-- What becomes of the seed's row: as it was without a cadence input, else re-tiered from the row.
abbrev pub Seeded : ℕ → Option CadenceInput → Dict Seed → Dict Seed → Type 0
Seeded seed none rows rows' = rows' ≡ rows
Seeded seed (some c) rows rows' =
    ((i : ℕ) → seed ≢ i → lookup i rows' ≡ lookup i rows)
    × (lookup seed rows ≡ none → lookup seed rows' ≡ none)
    × ((s : Seed)
        → lookup seed rows ≡ some s
        → (u : CadenceUpdate) × (update_for s.scan_tier s.consecutive_empty_scans c.found_matches
              (age_days c.moment s.created_at) c.moment c.policy
            ≡ some u)
          × (lookup seed rows'
              ≡ some (record s {
                scan_tier = u.scan_tier;
                consecutive_empty_scans = u.consecutive_empty_scans;
                next_scan_after = some u.next_scan_after;
                tier_next_scan_after = some u.tier_next_scan_after;
              })))

pub record Done (now id seed : ℕ) (succeeded : List ℕ) (retier : Option CadenceInput)
    (confirm : Bool) (t t' : Tables) : Type 0 where
  pub run_row :
      (r : Run)
      → lookup id t.runs ≡ some r
      → (n : ℕ) × CountOf id t.attestations n
        × (lookup id t'.runs
            ≡ some (record r {
              status = completed;
              providers_succeeded = succeeded;
              matches_found = n;
              completed_at = some now;
            }))
  pub other_runs : (i : ℕ) → id ≢ i → lookup i t'.runs ≡ lookup i t.runs
  pub seed_rows : Seeded seed retier t.seeds t'.seeds
  pub asked :
      (hit : ℕ)
      → confirm ≡ true
      → ToConfirm id hit t
      → requests hit t'.outbox ≡ requests hit t.outbox + 1
  pub not_asked :
      (hit : ℕ)
      → (confirm ≡ false) ⊎ ¬ (ToConfirm id hit t)
      → requests hit t'.outbox ≡ requests hit t.outbox
  pub same_hits : t'.infringements ≡ t.infringements
  pub same_attestations : t'.attestations ≡ t.attestations

-- The seed after a run, in the terms of the code.
abbrev Retiered : ℕ → Option CadenceInput → Dict Seed → Dict Seed → Type 0
Retiered seed none rows rows' = rows' ≡ rows
Retiered seed (some c) rows rows' =
    (i : ℕ)
    → lookup i rows' ≡ (
        if seed == i
        then map_option (λ s. elim (retiered c s) [ none ↦ s | some u ↦ set_cadence u s ])
            (lookup i rows)
        else lookup i rows)

record Wrote (now id seed : ℕ) (succeeded : List ℕ) (retier : Option CadenceInput) (confirm : Bool)
    (t t' : Tables) : Type 0 where
  run_row :
      lookup id t'.runs
      ≡ map_option (complete now succeeded (count_matches id t.attestations)) (lookup id t.runs)
  other_runs : (i : ℕ) → id ≢ i → lookup i t'.runs ≡ lookup i t.runs
  seed_rows : Retiered seed retier t.seeds t'.seeds
  asked :
      (hit : ℕ)
      → requests hit t'.outbox
        ≡ requests hit t.outbox
          + (if confirm && is_open id hit t.attestations (lookup hit t.infringements) then 1 else 0)
  same_hits : t'.infringements ≡ t.infringements
  same_attestations : t'.attestations ≡ t.attestations

abbrev retier_one : CadenceInput → Seed → Seed
retier_one c s = elim (retiered c s) [ none ↦ s | some u ↦ set_cadence u s ]

-- A moment with its timezone has an update.
retiered-some :
    (c : CadenceInput) (s : Seed)
    → c.moment.aware ≡ true
    → (u : CadenceUpdate) × (retiered c s ≡ some u)
unfolding update_for next_sunday
retiered-some c s aware = elim (Option-cases (retiered c s)) [
  | inr found ↦ found
  | inl e ↦ absurd (ground arith)
]

finish-Wrote :
    (now id seed : ℕ) (succeeded : List ℕ) (retier : Option CadenceInput) (confirm : Bool)
    (t : Tables) (u : Option CadenceUpdate)
    → Unique t.infringements
    → Retiered seed retier t.seeds (apply_cadence seed u t.seeds)
    → (t' : Tables) × (finish now id seed succeeded confirm (some u) t ≡ some (u, t'))
      × Wrote now id seed succeeded retier confirm t t'
finish-Wrote now id seed succeeded retier confirm t u unique seeded = (
  _,
  refl,
  record {
    run_row =
        lookup-update id id (complete now succeeded (count_matches id t.attestations)) t.runs
        ∙ ground arith;
    other_runs = λ i ne.
        lookup-update id i (complete now succeeded (count_matches id t.attestations)) t.runs
        ∙ ground arith;
    seed_rows = seeded;
    asked = λ hit. asked_lem id hit confirm t unique;
    same_hits = refl;
    same_attestations = refl;
  },
)

retier_one_at :
    (c : CadenceInput) (s : Seed) (u : CadenceUpdate)
    → retiered c s ≡ some u
    → retier_one c s ≡ set_cadence u s
retier_one_at c s u q = rw (q, retier_one) refl

seeded_at :
    (seed i : ℕ) (c : CadenceInput) (s : Seed) (u : CadenceUpdate) (rows : Dict Seed)
    → lookup seed rows ≡ some s
    → retiered c s ≡ some u
    → lookup i (update seed (set_cadence u) rows)
      ≡ (if seed == i then map_option (retier_one c) (lookup i rows) else lookup i rows)
seeded_at seed i c s u rows e q = elim (Bool-cases (seed == i)) [
  | inl same ↦
      let seed_is : seed ≡ i = ground arith in
      let found = ap (λ j. lookup j rows) (sym seed_is) ∙ e in
      rw (lookup-update seed i (set_cadence u) rows, same, found)
        (ap some (sym (retier_one_at c s u q)))
  | inr apart ↦ rw (lookup-update seed i (set_cadence u) rows, apart) refl
]

Retiered-by :
    (seed : ℕ) (c : CadenceInput) (rows : Dict Seed) (found : Option Seed)
    → lookup seed rows ≡ found
    → c.moment.aware ≡ true
    → (u : Option CadenceUpdate) × (on_seed c found ≡ some u)
      × Retiered seed (some c) rows (apply_cadence seed u rows)
Retiered-by seed c rows none e aware = (none, refl, λ i. ground arith)
Retiered-by seed c rows (some s) e aware =
    let (u, q) = retiered-some c s aware in
    (some u, rw (q, on_seed) refl, λ i. seeded_at seed i c s u rows e q)

Retiered-Seeded :
    (seed : ℕ) (retier : Option CadenceInput) (rows rows' : Dict Seed)
    → ((c : CadenceInput) → retier ≡ some c → c.moment.aware ≡ true)
    → Retiered seed retier rows rows'
    → Seeded seed retier rows rows'
Retiered-Seeded seed none rows rows' aware h = h
Retiered-Seeded seed (some c) rows rows' aware h = (
  λ i ne. ground (arith, h i),
  λ e. h seed ∙ ground arith,
  λ s e.
      let (u, q) = retiered-some c s (aware c refl) in
      let one = ap some (retier_one_at c s u q) in (u, q, h seed ∙ ground arith),
)

Wrote-Done :
    (now id seed : ℕ) (succeeded : List ℕ) (retier : Option CadenceInput) (confirm : Bool)
    (t t' : Tables)
    → ((c : CadenceInput) → retier ≡ some c → c.moment.aware ≡ true)
    → Wrote now id seed succeeded retier confirm t t'
    → Done now id seed succeeded retier confirm t t'
Wrote-Done now id seed succeeded retier confirm t t' aware d = record {
  run_row = λ r e. (
    count_matches id t.attestations,
    count_matches-CountOf id t.attestations,
    d.run_row ∙ rw e refl,
  );
  other_runs = d.other_runs;
  seed_rows = Retiered-Seeded seed retier t.seeds t'.seeds aware d.seed_rows;
  asked = λ hit on h. ground (arith, d.asked hit, ToConfirm-is_open id hit t h);
  not_asked = λ hit off. ground (arith, d.asked hit, closed_or_off id hit confirm t off);
  same_hits = d.same_hits;
  same_attestations = d.same_attestations;
}

-- Completing a run whose cadence input, if there is one, has a timezone always goes through. The run's
-- row is completed with the providers that succeeded and with the number of the attestations that
-- carry the run as their last; no other run changes. Its seed, and no other, is re-tiered as
-- `update_for` says of the row that is read, or left alone without an input. Where that is asked for,
-- the confirm queue gets one message for each hit that stands unconfirmed and has an attestation with
-- the run as its last, and none for another; where it is not, none. Hits and attestations stay as
-- they were. Hits stand in the table by their primary key.
pub complete_run-Done :
    (now id seed : ℕ) (succeeded : List ℕ) (retier : Option CadenceInput) (confirm : Bool)
    (t : Tables)
    → Unique t.infringements
    → ((c : CadenceInput) → retier ≡ some c → c.moment.aware ≡ true)
    → (u : Option CadenceUpdate) × (t' : Tables) × (complete_run now id seed succeeded retier
          confirm t
        ≡ some (u, t'))
      × Done now id seed succeeded retier confirm t t'
unfolding complete_run
complete_run-Done now id seed succeeded none confirm t unique aware =
    let (t', e, d) = finish-Wrote now id seed succeeded none confirm t none unique refl in
    (none, t', e, Wrote-Done now id seed succeeded none confirm t t' aware d)
complete_run-Done now id seed succeeded (some c) confirm t unique aware =
    let (u, q, seeded) = Retiered-by seed c t.seeds (lookup seed t.seeds) refl (aware c refl) in
    let (t', e, d) = finish-Wrote now id seed succeeded (some c) confirm t u unique seeded in
    (u, t', rw (q, cadence_of) e, Wrote-Done now id seed succeeded (some c) confirm t t' aware d)
