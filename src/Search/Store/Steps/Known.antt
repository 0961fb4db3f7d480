-- ===== src/Search/Store/Steps/Known.antt =====
-- No step forgets a run or takes its id for another (imageshield/search/store.py).
use silver_invention.Search.Store.Hits.Frame.{
  SameRuns, record_infringements_runs, record_feedback_runs,
}
use silver_invention.Search.Store.Steps.{
  committed, Op, claim, Urls, ProviderDescriptor, PolicyEntry, ProviderMatch, record_infringements,
  apply, apply_all, make_seed, make_run, no_rows, refuse_it, record_hits, complete_it, give,
  set_subject, add_provider, move_hit,
}
use silver_invention.Search.Runner.{CadenceInput}
use silver_invention.Search.Store.{Run, Tables, DateTime}
use silver_invention.Search.Store.Runs.{
  claim_run, create_run, complete_run, can_claim, cadence_of, complete, count_matches, new_run,
  start, claim_found, refuse, create_seed, refuse_run,
}
use silver_invention.Prelude.{
  ℕ, ◌+◌, ◌<◌, ◌≤◌, ◌≡◌, refl, sym, ap, Option, none, some, Bool, true, false, List, [], ◌∷◌, ◌==◌,
  if◌then◌else◌, Option-cases, Bool-cases, inl, inr, arith, ◌∙◌,
}
use mathlib.Core.Option.{none-ne-some}
use silver_invention.Prelude.Dict.{Dict, lookup, update, lookup-update, map_option}

-- A run's id is one that the counter has given.
abbrev pub KnownRuns : Tables → Type 0
KnownRuns t = (id : ℕ) (r : Run) → lookup id t.runs ≡ some r → id < t.next_id

gone :
    (k id : ℕ) (f : Run → Run) (rows : Dict Run)
    → lookup id rows ≡ none
    → (if k == id then map_option f (lookup id rows) else lookup id rows) ≡ none
gone k id f rows missing = ground arith

update_known :
    (k n : ℕ) (f : Run → Run) (rows : Dict Run)
    → ((id : ℕ) (r : Run) → lookup id rows ≡ some r → id < n)
    → (id : ℕ) (r : Run) → lookup id (update k f rows) ≡ some r
    → id < n
update_known k n f rows known id r e = elim (Option-cases (lookup id rows)) [
  | inl missing ↦
      absurd (none-ne-some r (sym (lookup-update k id f rows ∙ gone k id f rows missing) ∙ e))
  | inr (r0, found) ↦ known id r0 found
]

new_known :
    (n id : ℕ) (rows : Dict Run) (new r : Run)
    → ((id : ℕ) (r : Run) → lookup id rows ≡ some r → id < n)
    → lookup id ((n, new) ∷ rows) ≡ some r
    → id < n + 1
new_known n id rows new r known e = elim (Bool-cases (n == id)) [
  | inl same ↦ ground arith
  | inr other ↦ let h = known id r (rw other at e) in omega arith
]

make_run_known :
    (user seed : ℕ) (providers : List ℕ) (url : ℕ) (t : Tables)
    → KnownRuns t
    → KnownRuns (committed (create_run user seed providers url t) t)
unfolding create_run
make_run_known user seed providers url t known = elim (Option-cases (lookup seed t.seeds)) [
  | inl missing ↦ rw (missing, committed) known
  | inr (s, found) ↦
      rw (found, committed)
        (λ id r e. new_known t.next_id id t.runs (new_run user seed providers url) r known e)
]

pub clash : (b : Bool) → b ≡ true → b ≡ false → ⊥
clash b h k = ground arith

claim_found_known :
    (now k : ℕ) (t : Tables) (found : Option Run)
    → KnownRuns t
    → KnownRuns (claim_found now k found t).1
claim_found_known now k t none known = known
claim_found_known now k t (some r0) known = elim (Option-cases (lookup r0.seed_id t.seeds)) [
  | inl missing ↦ rw (missing, claim_found) known
  | inr (seed, found) ↦ elim (Bool-cases (can_claim now r0)) [
    | inl can ↦ rw (found, can, claim_found) (update_known k t.next_id (start now) t.runs known)
    | inr cannot ↦ rw (found, cannot, claim_found) known
  ]
]

pub claim_known : (now k : ℕ) (t : Tables) → KnownRuns t → KnownRuns (claim_run now k t).1
unfolding claim_run
claim_known now k t known = claim_found_known now k t (lookup k t.runs) known

complete_known :
    (now k seed : ℕ) (succeeded : List ℕ) (retier : Option CadenceInput) (confirm : Bool)
    (t : Tables)
    → KnownRuns t
    → KnownRuns (committed (complete_run now k seed succeeded retier confirm t) t)
unfolding complete_run
complete_known now k seed succeeded retier confirm t known =
    elim (Option-cases (cadence_of retier (lookup seed t.seeds))) [
      | inl raised ↦ rw (raised, committed) known
      | inr (u, ok) ↦
          rw (ok, committed)
            (update_known k t.next_id (complete now succeeded (count_matches k t.attestations))
              t.runs known)
    ]

known_same :
    (t t' : Tables) → t'.runs ≡ t.runs → t.next_id ≤ t'.next_id → KnownRuns t → KnownRuns t'
known_same t t' same more known id r e =
    let h = known id r (ap (λ d. lookup id d) (sym same) ∙ e) in omega arith

recorded_runs :
    (t : Tables) (o : Option (ℕ × Tables))
    → ((n : ℕ) (t' : Tables) → o ≡ some (n, t') → SameRuns t t')
    → SameRuns t (committed o t)
recorded_runs t none f = (refl, omega arith)
recorded_runs t (some (n, t')) f = f n t' refl

pub hits_runs :
    (urls : Urls) (now run user : ℕ) (provider : ProviderDescriptor) (policy : Dict PolicyEntry)
    (matches : List ProviderMatch) (t : Tables)
    → SameRuns t (committed (record_infringements urls now run user provider policy matches t) t)
hits_runs urls now run user provider policy matches t =
    recorded_runs t (record_infringements urls now run user provider policy matches t)
      (λ n t'. record_infringements_runs urls now run user provider policy matches n t t')

pub seed_runs :
    (now : DateTime) (user kind object : ℕ) (t : Tables)
    → SameRuns t (committed (create_seed now user kind object t) t)
unfolding create_seed
seed_runs now user kind object t = ground arith

pub apply_known : (op : Op) (t : Tables) → KnownRuns t → KnownRuns (apply op t)
unfolding apply refuse_run
apply_known (make_seed now user kind object) t known =
    let (a, b) = seed_runs now user kind object t in
    known_same t (apply (make_seed now user kind object) t) a b known
apply_known (make_run user seed providers url) t known =
    make_run_known user seed providers url t known
apply_known (claim now k) t known = claim_known now k t known
apply_known (refuse_it now k user reason) t known =
    update_known k t.next_id (refuse now) t.runs known
apply_known (record_hits urls now run user provider policy matches) t known =
    let (a, b) = hits_runs urls now run user provider policy matches t in
    known_same t (apply (record_hits urls now run user provider policy matches) t) a b known
apply_known (complete_it now k seed succeeded retier confirm) t known =
    complete_known now k seed succeeded retier confirm t known
apply_known (give hit user signal) t known =
    let (a, b) = record_feedback_runs hit user signal t in
    known_same t (apply (give hit user signal) t) a b known
apply_known (set_subject user eligible) t known = known
apply_known (add_provider pid) t known = known
apply_known (move_hit hit state) t known = known

pub apply_all_known : (ops : List Op) (t : Tables) → KnownRuns t → KnownRuns (apply_all ops t)
unfolding apply_all
apply_all_known [] t known = known
apply_all_known (op ∷ ops) t known = apply_all_known ops (apply op t) (apply_known op t known)

pub no_rows-KnownRuns : KnownRuns no_rows
no_rows-KnownRuns id r e = absurd (none-ne-some r e)
