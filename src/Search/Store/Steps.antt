-- ===== src/Search/Store/Steps.antt =====
-- Any sequence of the store's operations (imageshield/search/store.py), with what other parts of the
-- program do to its tables: a subject's eligibility changes, a provider is
-- added, the confirm pipeline moves a hit on.
use silver_invention.Calibration.Bands.{PolicyEntry}
use silver_invention.Search.Store.Hits.Invariant.{HitsInv, Agrees, record_infringements-HitsInv}
use silver_invention.Search.Store.Hits.Keys.{Keyed}
use silver_invention.Search.Store.Hits.Signals.{record_feedback-HitsInv, update-HitsInv}
use silver_invention.Search.Runner.{CadenceInput}
use silver_invention.Search.Store.Hits.{
  Urls, ProviderDescriptor, record_infringements, ProviderMatch, record_feedback,
}
use silver_invention.Search.Store.Runs.{
  create_seed, create_run, claim_run, complete_run, refuse_run,
}
use silver_invention.Search.Store.{ConfirmState, Infringement, Tables, Signal}
use silver_invention.Search.Cadence.{DateTime}
use silver_invention.Prelude.{
  ℕ, ◌≡◌, refl, sym, ap, subst, Option, none, some, Bool, List, [], ◌∷◌, ◌≤◌, ◌∙◌, arith,
}
use mathlib.Core.Option.{none-ne-some}
use silver_invention.Prelude.Dict.{Dict, lookup, update, insert}
pub mod Known
pub mod Standing
pub mod Lifecycle

pub data Op : Type 0 where
  make_seed : DateTime → ℕ → ℕ → ℕ → Op
  make_run : ℕ → ℕ → List ℕ → ℕ → Op
  claim : ℕ → ℕ → Op
  refuse_it : ℕ → ℕ → ℕ → ℕ → Op
  record_hits : Urls → ℕ → ℕ → ℕ → ProviderDescriptor → Dict PolicyEntry → List ProviderMatch → Op
  complete_it : ℕ → ℕ → ℕ → List ℕ → Option CadenceInput → Bool → Op
  give : ℕ → ℕ → Signal → Op
  set_subject : ℕ → Bool → Op
  add_provider : ℕ → Op
  move_hit : ℕ → ConfirmState → Op

-- A transaction that raises is rolled back.
abbrev pub committed {ℓ} : {A : Type ℓ} → Option (A × Tables) → Tables → Tables
committed none t = t
committed (some (a, t')) t = t'

abbrev pub set_confirm : ConfirmState → Infringement → Infringement
set_confirm state row = record row { confirm_state = state }

unfoldable pub apply : Op → Tables → Tables
apply (make_seed now user kind object) t = committed (create_seed now user kind object t) t
apply (make_run user seed providers url) t = committed (create_run user seed providers url t) t
apply (claim now id) t = (claim_run now id t).1
apply (refuse_it now id user reason) t = refuse_run now id user reason t
apply (record_hits urls now run user provider policy matches) t =
    committed (record_infringements urls now run user provider policy matches t) t
apply (complete_it now id seed succeeded retier confirm) t =
    committed (complete_run now id seed succeeded retier confirm t) t
apply (give id user signal) t = (record_feedback id user signal t).1
apply (set_subject user eligible) t = record t { subjects = insert user eligible t.subjects }
apply (add_provider pid) t = record t { providers = pid ∷ t.providers }
apply (move_hit id state) t = record t {
  infringements = update id (set_confirm state) t.infringements;
}

-- The first operation first.
unfoldable pub apply_all : List Op → Tables → Tables
unfolding apply
apply_all [] t = t
apply_all (op ∷ ops) t = apply_all ops (apply op t)

abbrev pub no_rows : Tables
no_rows = record {
  next_id = 0;
  providers = [];
  subjects = [];
  seeds = [];
  runs = [];
  content_urls = [];
  infringements = [];
  attestations = [];
  feedback = [];
  outbox = [];
  audit_log = [];
}

-- Two tables with the same hits, where the counter has not gone back.
record SameHits (t t' : Tables) : Type 0 where
  same_infringements : t'.infringements ≡ t.infringements
  same_attestations : t'.attestations ≡ t.attestations
  counter : t.next_id ≤ t'.next_id

same-HitsInv : (t t' : Tables) → SameHits t t' → HitsInv t → HitsInv t'
same-HitsInv t t' s h = record {
  agrees = λ id row e.
      subst (λ a. Agrees id row a) (sym s.same_attestations)
        (h.agrees id row (ap (λ d. lookup id d) (sym s.same_infringements) ∙ e));
  one_hit = λ i j r q ei ej.
      h.one_hit i j r q (ap (λ d. lookup i d) (sym s.same_infringements) ∙ ei)
        (ap (λ d. lookup j d) (sym s.same_infringements) ∙ ej);
  known_ids = λ i r e.
      let below = h.known_ids i r (ap (λ d. lookup i d) (sym s.same_infringements) ∙ e) in
      let c = s.counter in omega arith;
  one_attestation = subst (λ a. Keyed a) (sym s.same_attestations) h.one_attestation;
}

seed_hits :
    (now : DateTime) (user kind object : ℕ) (t : Tables)
    → SameHits t (committed (create_seed now user kind object t) t)
unfolding create_seed
seed_hits now user kind object t = ground arith

run_hits :
    (user seed : ℕ) (providers : List ℕ) (url : ℕ) (t : Tables)
    → SameHits t (committed (create_run user seed providers url t) t)
unfolding create_run
run_hits user seed providers url t = ground arith

claim_hits : (now id : ℕ) (t : Tables) → SameHits t (claim_run now id t).1
unfolding claim_run
claim_hits now id t = ground arith

complete_hits :
    (now id seed : ℕ) (succeeded : List ℕ) (retier : Option CadenceInput) (confirm : Bool)
    (t : Tables)
    → SameHits t (committed (complete_run now id seed succeeded retier confirm t) t)
unfolding complete_run
complete_hits now id seed succeeded retier confirm t = ground arith

refuse_hits : (now id user reason : ℕ) (t : Tables) → SameHits t (refuse_run now id user reason t)
unfolding refuse_run
refuse_hits now id user reason t = ground arith

subject_hits :
    (user : ℕ) (eligible : Bool) (t : Tables)
    → SameHits t (record t { subjects = insert user eligible t.subjects })
subject_hits user eligible t = ground arith

provider_hits : (pid : ℕ) (t : Tables) → SameHits t (record t { providers = pid ∷ t.providers })
provider_hits pid t = ground arith

no_rows-HitsInv : HitsInv no_rows
no_rows-HitsInv = record {
  agrees = λ id row e. absurd (none-ne-some row e);
  one_hit = λ i j r q ei. absurd (none-ne-some r ei);
  known_ids = λ i r e. absurd (none-ne-some r e);
  one_attestation = tt;
}

-- Every operation keeps what holds of the hits.
pub apply-HitsInv : (op : Op) (t : Tables) → HitsInv t → HitsInv (apply op t)
unfolding apply
apply-HitsInv (make_seed now user kind object) t h =
    same-HitsInv t _ (seed_hits now user kind object t) h
apply-HitsInv (make_run user seed providers url) t h =
    same-HitsInv t _ (run_hits user seed providers url t) h
apply-HitsInv (claim now id) t h = same-HitsInv t _ (claim_hits now id t) h
apply-HitsInv (refuse_it now id user reason) t h =
    same-HitsInv t _ (refuse_hits now id user reason t) h
apply-HitsInv (record_hits urls now run user provider policy matches) t h =
    recorded (record_infringements urls now run user provider policy matches t) refl
  where
    recorded :
        (o : Option (ℕ × Tables))
        → record_infringements urls now run user provider policy matches t ≡ o
        → HitsInv (committed o t)
    recorded none e = h
    recorded (some (n, t')) e =
        record_infringements-HitsInv urls now run user provider policy matches n t t' h e
apply-HitsInv (complete_it now id seed succeeded retier confirm) t h =
    same-HitsInv t _ (complete_hits now id seed succeeded retier confirm t) h
apply-HitsInv (give id user signal) t h = record_feedback-HitsInv id user signal t h
apply-HitsInv (set_subject user eligible) t h = same-HitsInv t _ (subject_hits user eligible t) h
apply-HitsInv (add_provider pid) t h = same-HitsInv t _ (provider_hits pid t) h
apply-HitsInv (move_hit id state) t h =
    update-HitsInv id (set_confirm state) t (λ r. (refl, refl, refl, refl)) h

apply_all-HitsInv : (ops : List Op) (t : Tables) → HitsInv t → HitsInv (apply_all ops t)
unfolding apply_all
apply_all-HitsInv [] t h = h
apply_all-HitsInv (op ∷ ops) t h = apply_all-HitsInv ops (apply op t) (apply-HitsInv op t h)

-- After any operations on empty tables, in any order and with any of them rolled back: the stored band
-- and reason of every infringement are the roll-up of its attestations' bands, and it has one; no user
-- has two infringements for one hash, and no infringement two attestations of one provider.
pub steps-HitsInv : (ops : List Op) → HitsInv (apply_all ops no_rows)
steps-HitsInv ops = apply_all-HitsInv ops no_rows no_rows-HitsInv
