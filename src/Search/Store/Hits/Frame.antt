-- ===== src/Search/Store/Hits/Frame.antt =====
-- What the writes of hits leave alone.
use silver_invention.Search.Store.Hits.Rescan.{record_cases}
use silver_invention.Search.Store.Hits.{
  record_feedback, Urls, owned, ProviderDescriptor, give_feedback, apply_signal, PolicyEntry,
  status_for, write_keys, add_feedback, write_key, InfringementKey, ProviderMatch, after_upsert,
  upsert_infringement, record_infringements, upsert_at, put_url, upsert_attestation, fan_out,
  find_hit, new_attestation, rolled, when_accepted-some,
}
use silver_invention.Prelude.{
  ℕ, ◌≤◌, ◌≡◌, refl, subst, Option, none, some, List, [], ◌∷◌, Option-cases, inl, inr, arith, ◌∙◌,
}
use mathlib.Core.Option.{some-injective, none-ne-some}
use silver_invention.Prelude.Dict.{Dict, lookup}
use silver_invention.Search.Store.{Tables, Signal, HitStatus}

-- The runs stay, and the counter does not go back.
abbrev pub SameRuns : Tables → Tables → Type 0
SameRuns t t' = (t'.runs ≡ t.runs) × (t.next_id ≤ t'.next_id)

trans_runs : (t t1 t' : Tables) → SameRuns t t1 → SameRuns t1 t' → SameRuns t t'
trans_runs t t1 t' (a, b) (c, d) = (c ∙ a, omega arith)

module _ (urls : Urls) (now run user : ℕ) (provider : ProviderDescriptor)
    (policy : Dict PolicyEntry) where
  at_runs :
      (key : InfringementKey) (found : Option ℕ) (t : Tables)
      → SameRuns t (upsert_at urls now run user provider policy key found t).1
  at_runs key none t = (refl, omega arith)
  at_runs key (some id) t = (refl, omega arith)

  after_runs :
      (key : InfringementKey) (id : ℕ) (t t' : Tables)
      → after_upsert urls now run user provider policy (id, t) key ≡ some t'
      → SameRuns t t'
  after_runs key id t t' e =
      elim (Option-cases (
        upsert_attestation (new_attestation urls now run user provider policy id key)
          t.attestations)) [
            | inl broken ↦ absurd (none-ne-some t' (rw (broken, after_upsert) at e))
            | inr (rows, q) ↦
                subst (λ x. SameRuns t x)
                  (some-injective (rolled urls now run user provider policy id rows t) t'
                    (rw (q, after_upsert) at e))
                  (refl, omega arith)
          ]

  write_key_runs :
      (key : InfringementKey) (t t' : Tables)
      → write_key urls now run user provider policy key t ≡ some t'
      → SameRuns t t'
  unfolding write_key upsert_infringement
  write_key_runs key t t' e =
      let t0 = put_url urls now run user provider policy key t in
      let found = find_hit user key.url_hash t0.infringements in
      let out = upsert_at urls now run user provider policy key found t0 in
      trans_runs t out.1 t' (at_runs key found t0)
        (after_runs key out.0 out.1 t' (when_accepted-some _ _ t' e))

  write_keys_runs :
      (keys : List InfringementKey) (t t' : Tables)
      → write_keys urls now run user provider policy keys t ≡ some t'
      → SameRuns t t'
  unfolding write_keys
  write_keys_runs [] t t' e = subst (λ x. SameRuns t x) (some-injective t t' e) (refl, omega arith)
  write_keys_runs (key ∷ keys) t t' e =
      elim (Option-cases (write_key urls now run user provider policy key t)) [
        | inl broken ↦ absurd (none-ne-some t' (rw (broken, write_keys) at e))
        | inr (t1, q) ↦
            trans_runs t t1 t' (write_key_runs key t t1 q)
              (write_keys_runs keys t1 t' (rw (q, write_keys) at e))
      ]

  pub record_infringements_runs :
      (matches : List ProviderMatch) (n : ℕ) (t t' : Tables)
      → record_infringements urls now run user provider policy matches t ≡ some (n, t')
      → SameRuns t t'
  record_infringements_runs matches n t t' e =
      let (_, all) = record_cases urls now run user provider policy matches n t t' e in
      write_keys_runs (fan_out urls matches) t t' all

signal_runs :
    (id : ℕ) (current : HitStatus) (status : Option HitStatus) (t : Tables)
    → SameRuns t (apply_signal id current status t).1
signal_runs id current none t = (refl, omega arith)
signal_runs id current (some status) t = (refl, omega arith)

given_runs :
    (id user : ℕ) (signal : Signal) (current : Option HitStatus) (t : Tables)
    → SameRuns t (give_feedback id user signal current t).1
given_runs id user signal none t = (refl, omega arith)
given_runs id user signal (some current) t =
    signal_runs id current (status_for signal) (add_feedback id user signal t)

pub record_feedback_runs :
    (id user : ℕ) (signal : Signal) (t : Tables) → SameRuns t (record_feedback id user signal t).1
unfolding record_feedback
record_feedback_runs id user signal t =
    given_runs id user signal (owned user (lookup id t.infringements)) t
