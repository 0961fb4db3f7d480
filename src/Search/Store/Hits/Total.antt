-- ===== src/Search/Store/Hits/Total.antt =====
-- When recording matches goes through (record_infringements of imageshield/search/store.py).
use silver_invention.Search.Store.Hits.FanOut.{fan_out-All}
use silver_invention.Search.Store.Hits.{
  Urls, upsert_attestation, merge, ProviderDescriptor, Attestation, ProviderMatch,
  record_infringements, PolicyEntry, shaped, same_key, write_key, write_keys, Tables, has_shape,
  InfringementKey, upsert_infringement, fan_out, after_upsert, confirm, put_url, behind, upsert_at,
  new_attestation, rolled, find_hit, targets, counted, has_provider, fits, is_found,
}
use silver_invention.Prelude.{
  ℕ, ◌≡◌, refl, sym, subst, Option, none, some, true, List, [], ◌∷◌, Bool-cases, inl, inr, arith,
  ◌∙◌, All, All-map, length, All-const,
}
use silver_invention.Prelude.Dict.{Dict, lookup}

-- The rows of a provider have its score kind.
abbrev pub KindOf : ProviderDescriptor → List Attestation → Type 0
KindOf provider rows =
    All (λ a. a.provider_id ≡ provider.provider_id → a.score_kind ≡ provider.score_kind) rows

-- A score, or a category, as the provider's kind wants it.
abbrev pub Shaped : ProviderDescriptor → ProviderMatch → Type 0
Shaped provider m = has_shape provider.score_kind m.provider_score m.provider_category ≡ true

merged_shape :
    (provider : ProviderDescriptor) (new old : Attestation)
    → new.provider_id ≡ provider.provider_id
    → new.score_kind ≡ provider.score_kind
    → (old.provider_id ≡ provider.provider_id → old.score_kind ≡ provider.score_kind)
    → same_key new old ≡ true
    → shaped new ≡ true
    → (shaped (confirm new old) ≡ true) × (old.score_kind ≡ provider.score_kind)
merged_shape provider new old p k kind same fits =
    let id_is : old.provider_id ≡ provider.provider_id = ground arith in
    let kind_is = kind id_is in
    (
      subst (λ x. has_shape x new.provider_score new.provider_category ≡ true) (k ∙ sym kind_is)
          fits,
      kind_is,
    )

merge_total :
    (provider : ProviderDescriptor) (new : Attestation) (rows : List Attestation)
    → new.provider_id ≡ provider.provider_id
    → new.score_kind ≡ provider.score_kind
    → shaped new ≡ true
    → KindOf provider rows
    → (rows' : List Attestation) × (merge new rows ≡ some rows') × KindOf provider rows'
unfolding merge
merge_total provider new [] p k fits kinds = (new ∷ [], refl, ((λ q. k), tt))
merge_total provider new (old ∷ rows) p k fits (kind, kinds) =
    elim (Bool-cases (same_key new old)) [
      | inl same ↦
          let (shape, kind_is) = merged_shape provider new old p k kind same fits in
          (confirm new old ∷ rows, rw (same, shape) refl, ((λ q. kind_is), kinds))
      | inr other ↦
          let (rest, e, kinds') = merge_total provider new rows p k fits kinds in
          (old ∷ rest, rw (other, e, behind) refl, (kind, kinds'))
    ]

upserted :
    (new : Attestation) (rows rows' : List Attestation)
    → shaped new ≡ true
    → merge new rows ≡ some rows'
    → upsert_attestation new rows ≡ some rows'
unfolding upsert_attestation
upserted new rows rows' fits e = rw fits e

-- The rows that the foreign keys ask for are there.
abbrev pub Referenced : ℕ → ProviderDescriptor → Tables → Type 0
Referenced run provider t =
    (has_provider provider.provider_id t.providers ≡ true) × (is_found (lookup run t.runs) ≡ true)

module _ (urls : Urls) (now run user : ℕ) (provider : ProviderDescriptor)
    (policy : Dict PolicyEntry) where
  -- The write goes through, and the next one can too.
  abbrev Goes : Option Tables → Type 0
  Goes o =
      (t' : Tables) × (o ≡ some t') × KindOf provider t'.attestations × Referenced run provider t'

  total_after :
      (key : InfringementKey) (id : ℕ) (t : Tables)
      → Shaped provider key.hit
      → KindOf provider t.attestations
      → Referenced run provider t
      → Goes (after_upsert urls now run user provider policy (id, t) key)
  unfolding upsert_attestation
  total_after key id t shape kinds known =
      let new = new_attestation urls now run user provider policy id key in
      let (rows, e, kinds') = merge_total provider new t.attestations refl refl shape kinds in
      (
        rolled urls now run user provider policy id rows t,
        rw (upserted new t.attestations rows shape e, after_upsert) refl,
        kinds',
        known,
      )

  total_at :
      (key : InfringementKey) (t : Tables) (found : Option ℕ)
      → Shaped provider key.hit
      → KindOf provider t.attestations
      → Referenced run provider t
      → Goes (
          after_upsert urls now run user provider policy
            (upsert_at urls now run user provider policy key found t)
            key)
  total_at key t none shape kinds known = total_after key _ _ shape kinds known
  total_at key t (some id) shape kinds known = total_after key _ _ shape kinds known

  key_total :
      (key : InfringementKey) (t : Tables)
      → Shaped provider key.hit
      → fits urls key.hit.provider_score ≡ true
      → KindOf provider t.attestations
      → Referenced run provider t
      → Goes (write_key urls now run user provider policy key t)
  unfolding write_key upsert_infringement upsert_attestation
  key_total key t shape in_range kinds (of_provider, of_run) =
      let t0 = put_url urls now run user provider policy key t in
      let (t', e, kinds', known) =
        total_at key t0 (find_hit user key.url_hash t0.infringements) shape kinds
          (of_provider, of_run) in
      (t', rw (in_range, of_provider, of_run) e, kinds', known)

  keys_total :
      (keys : List InfringementKey) (t : Tables)
      → All (λ k. Shaped provider k.hit × (fits urls k.hit.provider_score ≡ true)) keys
      → KindOf provider t.attestations
      → Referenced run provider t
      → (t' : Tables) × (write_keys urls now run user provider policy keys t ≡ some t')
  unfolding write_keys
  keys_total [] t shapes kinds known = (t, refl)
  keys_total (key ∷ keys) t ((shape, in_range), shapes) kinds known =
      let (t1, e, kinds', known') = key_total key t shape in_range kinds known in
      let (t', e') = keys_total keys t1 shapes kinds' known' in (t', rw (e, write_keys) e')

-- Recording the matches of a provider goes through where the provider and the run have their rows, each
-- match has the score or the category that the provider's kind wants, each score fits its column, and
-- the provider's earlier attestations are of that kind; the number reported is that of the pages, and
-- it is one transaction.
pub record_infringements_total :
    (urls : Urls) (now run user : ℕ) (provider : ProviderDescriptor) (policy : Dict PolicyEntry)
    (matches : List ProviderMatch) (t : Tables)
    → All (λ m. Shaped provider m × (fits urls m.provider_score ≡ true)) matches
    → KindOf provider t.attestations
    → Referenced run provider t
    → (t' : Tables) × (record_infringements urls now run user provider policy matches t
        ≡ some (length (fan_out urls matches), t'))
unfolding record_infringements
record_infringements_total urls now run user provider policy matches t shapes kinds known =
    let keyed =
      fan_out-All urls (λ k. Shaped provider k.hit × (fits urls k.hit.provider_score ≡ true))
        matches (All-map matches (λ m h. All-const (targets m) h) shapes) in
    let (t', e) =
      keys_total urls now run user provider policy (fan_out urls matches) t keyed kinds known in
    (t', rw (e, counted) refl)
