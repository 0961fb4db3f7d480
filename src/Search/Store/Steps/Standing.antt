-- ===== src/Search/Store/Steps/Standing.antt =====
-- A run that stands in some way does so after any step that leaves it alone
-- (imageshield/search/store.py).
use silver_invention.Search.Store.Steps.Known.{hits_runs, seed_runs}
use silver_invention.Search.Store.Hits.Frame.{record_feedback_runs}
use silver_invention.Search.Store.Steps.{
  committed, Op, claim, apply, apply_all, make_seed, make_run, refuse_it, record_hits, complete_it,
  give, set_subject, add_provider, move_hit,
}
use silver_invention.Search.Runner.{CadenceInput}
use silver_invention.Search.Store.{Run, Tables}
use silver_invention.Search.Store.Runs.{
  claim_run, create_run, complete_run, can_claim, cadence_of, complete, count_matches, start,
  claim_found, refuse, refuse_run,
}
use silver_invention.Prelude.{
  ℕ, ◌≡◌, refl, sym, ap, subst, Option, none, some, Bool, true, false, List, [], ◌∷◌, ◌==◌,
  Option-cases, Bool-cases, inl, inr, All, arith, ◌∙◌,
}
use mathlib.Core.Option.{some-injective}
use silver_invention.Prelude.Dict.{Dict, lookup, update, lookup-update}
use silver_invention.Search.Store.Steps.Known.{KnownRuns, clash, apply_known}

-- The run stands in the table with a row of which `Q` holds.
abbrev pub Stands : (Run → Type 0) → ℕ → Tables → Type 0
Stands Q id t = (r : Run) × (lookup id t.runs ≡ some r) × Q r

-- Where `Q` holds of the run, the operation does not claim it.
abbrev pub LeavesAlone : (Run → Type 0) → ℕ → Op → Type 0
LeavesAlone Q id (claim now other) = other ≡ id → (r : Run) → Q r → can_claim now r ≡ false
LeavesAlone Q id _ = Unit {0}

same_runs :
    (Q : Run → Type 0) (id : ℕ) (t t' : Tables) → t'.runs ≡ t.runs → Stands Q id t → Stands Q id t'
same_runs Q id t t' same (r, e, q) = (r, ap (λ d. lookup id d) same ∙ e, q)

pub update_stands :
    (Q : Run → Type 0) (id k : ℕ) (f : Run → Run) (rows : Dict Run) (r : Run)
    → ((r : Run) → Q r → Q (f r))
    → lookup id rows ≡ some r
    → Q r
    → (r' : Run) × (lookup id (update k f rows) ≡ some r') × Q r'
update_stands Q id k f rows r keeps e q = elim (Bool-cases (k == id)) [
  | inl same ↦ (f r, rw (lookup-update k id f rows, same, e) refl, keeps r q)
  | inr other ↦ (r, rw (lookup-update k id f rows, other) e, q)
]

pub make_run-Stands :
    (Q : Run → Type 0) (id user seed : ℕ) (providers : List ℕ) (url : ℕ) (t : Tables)
    → KnownRuns t
    → Stands Q id t
    → Stands Q id (committed (create_run user seed providers url t) t)
unfolding create_run
make_run-Stands Q id user seed providers url t known (r, e, q) =
    elim (Option-cases (lookup seed t.seeds)) [
      | inl missing ↦ rw (missing, committed) (r, e, q)
      | inr (s, found) ↦ let below = known id r e in rw (found, committed) (r, ground arith, q)
    ]

started-Stands :
    (Q : Run → Type 0) (id now k : ℕ) (t : Tables) (r0 r : Run)
    → lookup k t.runs ≡ some r0
    → lookup id t.runs ≡ some r
    → can_claim now r0 ≡ true
    → (k ≡ id → (r : Run) → Q r → can_claim now r ≡ false)
    → Q r
    → Stands Q id (record t { runs = update k (start now) t.runs })
started-Stands Q id now k t r0 r e0 e can alone q = elim (Bool-cases (k == id)) [
  | inl same ↦
      let k_is_id : k ≡ id = ground arith in
      let r_is : r0 ≡ r = some-injective r0 r (sym e0 ∙ (ap (λ j. lookup j t.runs) k_is_id ∙ e)) in
      let no = alone k_is_id r q in
      let can_r = subst (λ x. can_claim now x ≡ true) r_is can in
      absurd (clash (can_claim now r) can_r no)
  | inr other ↦ (r, rw (lookup-update k id (start now) t.runs, other) e, q)
]

claim_found-Stands :
    (Q : Run → Type 0) (id now k : ℕ) (t : Tables) (found : Option Run)
    → lookup k t.runs ≡ found
    → (k ≡ id → (r : Run) → Q r → can_claim now r ≡ false)
    → Stands Q id t
    → Stands Q id (claim_found now k found t).1
claim_found-Stands Q id now k t none e0 alone s = s
claim_found-Stands Q id now k t (some r0) e0 alone (r, e, q) =
    elim (Option-cases (lookup r0.seed_id t.seeds)) [
      | inl missing ↦ rw (missing, claim_found) (r, e, q)
      | inr (seed, found) ↦ elim (Bool-cases (can_claim now r0)) [
        | inl can ↦ rw (found, can, claim_found) (started-Stands Q id now k t r0 r e0 e can alone q)
        | inr cannot ↦ rw (found, cannot, claim_found) (r, e, q)
      ]
    ]

pub claim-Stands :
    (Q : Run → Type 0) (id now k : ℕ) (t : Tables)
    → (k ≡ id → (r : Run) → Q r → can_claim now r ≡ false)
    → Stands Q id t
    → Stands Q id (claim_run now k t).1
unfolding claim_run
claim-Stands Q id now k t alone s = claim_found-Stands Q id now k t (lookup k t.runs) refl alone s

pub complete-Stands :
    (Q : Run → Type 0) (id now k seed : ℕ) (succeeded : List ℕ) (retier : Option CadenceInput)
    (confirm : Bool) (t : Tables)
    → ((n : ℕ) (r : Run) → Q r → Q (complete now succeeded n r))
    → Stands Q id t
    → Stands Q id (committed (complete_run now k seed succeeded retier confirm t) t)
unfolding complete_run
complete-Stands Q id now k seed succeeded retier confirm t keeps (r, e, q) =
    elim (Option-cases (cadence_of retier (lookup seed t.seeds))) [
      | inl raised ↦ rw (raised, committed) (r, e, q)
      | inr (u, ok) ↦
          rw (ok, committed)
            (update_stands Q id k (complete now succeeded (count_matches k t.attestations)) t.runs r
              (keeps _) e q)
    ]

-- A property of runs that refusing and completing keep.
pub record IsKept (Q : Run → Type 0) : Type 0 where
  pub refusing : (now : ℕ) (r : Run) → Q r → Q (refuse now r)
  pub completing :
      (now : ℕ) (succeeded : List ℕ) (n : ℕ) (r : Run) → Q r → Q (complete now succeeded n r)

module _ (Q : Run → Type 0) (kept : IsKept Q) (id : ℕ) where
  pub apply-Stands :
      (op : Op) (t : Tables)
      → LeavesAlone Q id op
      → KnownRuns t
      → Stands Q id t
      → Stands Q id (apply op t)
  unfolding apply refuse_run
  apply-Stands (make_seed now user kind object) t alone known s =
      same_runs Q id t (apply (make_seed now user kind object) t)
        (seed_runs now user kind object t).0 s
  apply-Stands (make_run user seed providers url) t alone known s =
      make_run-Stands Q id user seed providers url t known s
  apply-Stands (claim now k) t alone known s = claim-Stands Q id now k t alone s
  apply-Stands (refuse_it now k user reason) t alone known (r, e, q) =
      update_stands Q id k (refuse now) t.runs r (kept.refusing now) e q
  apply-Stands (record_hits urls now run user provider policy matches) t alone known s =
      same_runs Q id t (apply (record_hits urls now run user provider policy matches) t)
        (hits_runs urls now run user provider policy matches t).0 s
  apply-Stands (complete_it now k seed succeeded retier confirm) t alone known s =
      complete-Stands Q id now k seed succeeded retier confirm t (kept.completing now succeeded) s
  apply-Stands (give hit user signal) t alone known s =
      same_runs Q id t (apply (give hit user signal) t) (record_feedback_runs hit user signal t).0 s
  apply-Stands (set_subject user eligible) t alone known s = s
  apply-Stands (add_provider pid) t alone known s = s
  apply-Stands (move_hit hit state) t alone known s = s

pub apply_all-Stands :
    (Q : Run → Type 0) (kept : IsKept Q) (id : ℕ) (ops : List Op) (t : Tables)
    → All (LeavesAlone Q id) ops
    → KnownRuns t
    → Stands Q id t
    → Stands Q id (apply_all ops t)
unfolding apply_all
apply_all-Stands Q kept id [] t all known s = s
apply_all-Stands Q kept id (op ∷ ops) t (alone, all) known s =
    apply_all-Stands Q kept id ops (apply op t) all (apply_known op t known)
      (apply-Stands Q kept id op t alone known s)

-- A run that stands with `Q`, where `Q` rules the claim out, is not claimed.
pub Stands-unclaimed :
    (Q : Run → Type 0) (id now : ℕ) (t : Tables)
    → ((r : Run) → Q r → can_claim now r ≡ false)
    → Stands Q id t
    → claim_run now id t ≡ (none, t)
unfolding claim_run
Stands-unclaimed Q id now t never (r, e, q) = elim (Option-cases (lookup r.seed_id t.seeds)) [
  | inl missing ↦ rw (e, claim_found, missing) refl
  | inr (seed, found) ↦ rw (e, claim_found, found, never r q) refl
]
