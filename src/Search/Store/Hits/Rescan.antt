-- ===== src/Search/Store/Hits/Rescan.antt =====
-- A rescan of the same matches (record_infringements of search/store.py).
use silver_invention.Search.Store.Hits.Keys.{upsert_inv}
use silver_invention.Search.Store.Hits.{
  merge, find_hit, Urls, ProviderDescriptor, PolicyEntry, InfringementKey, write_key,
  new_attestation, upsert_at, touch, upsert_infringement, put_url, upsert_attestation, after_upsert,
  rolled, ProviderMatch, new_hit, record_infringements, write_keys, set_band, roll_up, fan_out,
  bands_of, when_accepted-some, accepted,
}
use silver_invention.Prelude.{
  ℕ, ◌≡◌, ◌≢◌, refl, sym, ap, ◌∙◌, subst, Option, none, some, true, List, [], ◌∷◌, arith,
  Option-cases, inl, inr, All, All-map, length,
}
use mathlib.Core.Option.{some-injective, none-ne-some}
use silver_invention.Prelude.Dict.{Dict, lookup}
use silver_invention.Search.Store.{Tables, Attestation}
use silver_invention.Search.Store.Hits.Counts.{
  attested, length-update, find_hit-update, find_hit_new, attested-merge, merge-attested,
  length-merge, url_own, url_kept, url_length,
}

-- How many rows the three tables have.
abbrev pub sizes : Tables → ℕ × ℕ × ℕ
sizes t = (length t.content_urls, length t.infringements, length t.attestations)

module _ (urls : Urls) (now run user : ℕ) (provider : ProviderDescriptor)
    (policy : Dict PolicyEntry) where
  abbrev at : InfringementKey → Option ℕ → Tables → ℕ × Tables
  at key found t = upsert_at urls now run user provider policy key found t

  abbrev with_url : InfringementKey → Tables → Tables
  with_url key t = put_url urls now run user provider policy key t

  abbrev claim_of : ℕ → InfringementKey → Attestation
  claim_of id key = new_attestation urls now run user provider policy id key

  own_hit :
      (key : InfringementKey) (t : Tables) (found : Option ℕ)
      → find_hit user key.url_hash t.infringements ≡ found
      → find_hit user key.url_hash (at key found t).1.infringements ≡ some (at key found t).0
  own_hit key t none e = ground arith
  own_hit key t (some id) e =
      find_hit-update user key.url_hash id (touch now) t.infringements (λ r. (refl, refl)) ∙ e

  kept_hit :
      (key : InfringementKey) (t : Tables) (found : Option ℕ) (hash id : ℕ)
      → find_hit user key.url_hash t.infringements ≡ found
      → find_hit user hash t.infringements ≡ some id
      → find_hit user hash (at key found t).1.infringements ≡ some id
  kept_hit key t none hash id e h =
      find_hit_new user hash key.url_hash t.next_id (new_hit urls now run user provider policy key)
        t.infringements id refl e h
  kept_hit key t (some j) hash id e h =
      find_hit-update user hash j (touch now) t.infringements (λ r. (refl, refl)) ∙ h

  -- The pieces of one write.
  abbrev Pieces : InfringementKey → Tables → Tables → Type 0
  Pieces key t t' =
      let t0 = with_url key t in
      let out = at key (find_hit user key.url_hash t0.infringements) t0 in
      (rows : List Attestation) × (merge (claim_of out.0 key) t.attestations ≡ some rows)
      × (t'.attestations ≡ rows)
      × (t'.content_urls ≡ t0.content_urls)
      × ((hash : ℕ) → find_hit user hash t'.infringements ≡ find_hit user hash out.1.infringements)
      × (length t'.infringements ≡ length out.1.infringements)

  pieces_at :
      (key : InfringementKey) (t0 : Tables) (found : Option ℕ)
      → ((at key found t0).1.attestations ≡ t0.attestations)
        × ((at key found t0).1.content_urls ≡ t0.content_urls)
  pieces_at key t0 none = (refl, refl)
  pieces_at key t0 (some id) = (refl, refl)

  write_key-Pieces :
      (key : InfringementKey) (t t' : Tables)
      → write_key urls now run user provider policy key t ≡ some t'
      → Pieces key t t'
  unfolding write_key upsert_infringement
  write_key-Pieces key t t' raw =
      let t0 = with_url key t in
      let out = at key (find_hit user key.url_hash t0.infringements) t0 in
      let e =
        when_accepted-some (accepted urls now run user provider policy key t)
          (after_upsert urls now run user provider policy out key) t' raw in
      let (same_rows, same_urls) = pieces_at key t0 (find_hit user key.url_hash t0.infringements) in
      elim (Option-cases (upsert_attestation (claim_of out.0 key) out.1.attestations)) [
        | inl broken ↦ absurd (none-ne-some t' (rw (broken, after_upsert) at e))
        | inr (rows, q) ↦
            let is : rolled urls now run user provider policy out.0 rows out.1 ≡ t' =
              some-injective _ t' (rw (q, after_upsert) at e) in
            let f = set_band (roll_up (bands_of out.0 rows)) in
            (
              rows,
              subst (λ a. merge (claim_of out.0 key) a ≡ some rows) same_rows
                  (upsert_inv (claim_of out.0 key) out.1.attestations rows q),
              ap (λ x. x.attestations) (sym is),
              ap (λ x. x.content_urls) (sym is) ∙ same_urls,
              (λ hash.
                  ap (λ x. find_hit user hash x.infringements) (sym is)
                  ∙ find_hit-update user hash out.0 f out.1.infringements (λ r. (refl, refl))),
              ap (λ x. length x.infringements) (sym is) ∙ length-update out.0 f out.1.infringements,
            )
      ]

  -- Everything that a key writes is there.
  abbrev Written : InfringementKey → Tables → Type 0
  Written key t =
      (id : ℕ) × (find_hit user key.url_hash t.infringements ≡ some id)
      × (attested id provider.provider_id t.attestations ≡ true)
      × (lookup key.url_hash t.content_urls ≢ none)

  write_key-Written :
      (key : InfringementKey) (t t' : Tables)
      → write_key urls now run user provider policy key t ≡ some t'
      → Written key t'
  write_key-Written key t t' e =
      let t0 = with_url key t in
      let found = find_hit user key.url_hash t0.infringements in
      let out = at key found t0 in
      let (rows, m, r, u, hits, _) = write_key-Pieces key t t' e in
      (
        out.0,
        hits key.url_hash ∙ own_hit key t0 found refl,
        subst (λ a. attested out.0 provider.provider_id a ≡ true) (sym r)
            (merge-attested (claim_of out.0 key) t.attestations rows m),
        subst (λ x. lookup key.url_hash x ≢ none) (sym u)
            (url_own key.url_hash _ t.content_urls (lookup key.url_hash t.content_urls) refl),
      )

  write_key_keeps :
      (key other : InfringementKey) (t t' : Tables)
      → write_key urls now run user provider policy key t ≡ some t'
      → Written other t
      → Written other t'
  write_key_keeps key other t t' e (id, found_other, seen_att, seen_url) =
      let t0 = with_url key t in
      let found = find_hit user key.url_hash t0.infringements in
      let out = at key found t0 in
      let (rows, m, r, u, hits, _) = write_key-Pieces key t t' e in
      (
        id,
        hits other.url_hash ∙ kept_hit key t0 found other.url_hash id refl found_other,
        subst (λ a. attested id provider.provider_id a ≡ true) (sym r)
            (attested-merge id provider.provider_id (claim_of out.0 key) t.attestations rows m
              seen_att),
        subst (λ x. lookup other.url_hash x ≢ none) (sym u)
            (url_kept key.url_hash other.url_hash _ t.content_urls
              (lookup key.url_hash t.content_urls) seen_url),
      )

  at-length :
      (key : InfringementKey) (t0 : Tables) (found : Option ℕ) (id : ℕ)
      → found ≡ some id
      → ((at key found t0).0 ≡ id)
        × (length (at key found t0).1.infringements ≡ length t0.infringements)
  at-length key t0 none id e = absurd (none-ne-some id e)
  at-length key t0 (some j) id e =
      (some-injective j id e, length-update j (touch now) t0.infringements)

  write_key_adds_nothing :
      (key : InfringementKey) (t t' : Tables)
      → Written key t
      → write_key urls now run user provider policy key t ≡ some t'
      → sizes t' ≡ sizes t
  write_key_adds_nothing key t t' (id, found_key, seen_att, seen_url) e =
      let t0 = with_url key t in
      let found = find_hit user key.url_hash t0.infringements in
      let out = at key found t0 in
      let (rows, m, r, u, hits, n) = write_key-Pieces key t t' e in
      let (own, same_length) = at-length key t0 found id found_key in
      let a =
        length-merge (claim_of out.0 key) t.attestations rows m
          (subst (λ j. attested j provider.provider_id t.attestations ≡ true) (sym own) seen_att) in
      let l1 =
        ap length u
        ∙ url_length key.url_hash _ t.content_urls (lookup key.url_hash t.content_urls) seen_url in
      let l2 = n ∙ same_length in let l3 = ap length r ∙ a in cc

  abbrev all_of : List InfringementKey → Tables → Option Tables
  all_of keys t = write_keys urls now run user provider policy keys t

  write_keys_cases :
      (key : InfringementKey) (keys : List InfringementKey) (t t' : Tables)
      → all_of (key ∷ keys) t ≡ some t'
      → (t1 : Tables) × (write_key urls now run user provider policy key t ≡ some t1)
        × (all_of keys t1 ≡ some t')
  unfolding write_keys
  write_keys_cases key keys t t' e =
      elim (Option-cases (write_key urls now run user provider policy key t)) [
        | inl broken ↦ absurd (none-ne-some t' (rw (broken, write_keys) at e))
        | inr (t1, q) ↦ (t1, q, rw (q, write_keys) at e)
      ]

  write_keys_keep :
      (keys : List InfringementKey) (other : InfringementKey) (t t' : Tables)
      → all_of keys t ≡ some t'
      → Written other t
      → Written other t'
  unfolding write_keys
  write_keys_keep [] other t t' e w = subst (λ x. Written other x) (some-injective t t' e) w
  write_keys_keep (key ∷ keys) other t t' e w =
      let (t1, first, rest) = write_keys_cases key keys t t' e in
      write_keys_keep keys other t1 t' rest (write_key_keeps key other t t1 first w)

  pub write_keys-Written :
      (keys : List InfringementKey) (t t' : Tables)
      → all_of keys t ≡ some t'
      → All (λ k. Written k t') keys
  write_keys-Written [] t t' e = tt
  write_keys-Written (key ∷ keys) t t' e =
      let (t1, first, rest) = write_keys_cases key keys t t' e in
      (
        write_keys_keep keys key t1 t' rest (write_key-Written key t t1 first),
        write_keys-Written keys t1 t' rest,
      )

  pub write_keys_add_nothing :
      (keys : List InfringementKey) (t t' : Tables)
      → All (λ k. Written k t) keys
      → all_of keys t ≡ some t'
      → sizes t' ≡ sizes t
  unfolding write_keys
  write_keys_add_nothing [] t t' all e = ap sizes (sym (some-injective t t' e))
  write_keys_add_nothing (key ∷ keys) t t' (w, all) e =
      let (t1, first, rest) = write_keys_cases key keys t t' e in
      write_keys_add_nothing keys t1 t'
        (All-map keys (λ k h. write_key_keeps key k t t1 first h) all) rest
      ∙ write_key_adds_nothing key t t1 w first

  pub record_cases :
      (matches : List ProviderMatch) (n : ℕ) (t t' : Tables)
      → record_infringements urls now run user provider policy matches t ≡ some (n, t')
      → (length (fan_out urls matches) ≡ n) × (all_of (fan_out urls matches) t ≡ some t')
  unfolding record_infringements
  record_cases matches n t t' e = elim (Option-cases (all_of (fan_out urls matches) t)) [
    | inl broken ↦ absurd (none-ne-some (n, t') (rw broken at e))
    | inr (t1, q) ↦
        let same = some-injective (length (fan_out urls matches), t1) (n, t') (rw q at e) in
        (ap (λ y. y.0) same, q ∙ ap (λ y. some y.1) same)
  ]

-- Rows grow with content, not with time: when the matches of a provider's answer are recorded a second
-- time for the user, by whatever run, at whatever time and under whatever policy, the same number is
-- reported and no table of URLs, infringements or attestations gets a row.
pub rescan_adds_nothing :
    (urls : Urls) (user : ℕ) (provider : ProviderDescriptor) (matches : List ProviderMatch)
    (now run now' run' n n' : ℕ) (policy policy' : Dict PolicyEntry) (t t1 t2 : Tables)
    → record_infringements urls now run user provider policy matches t ≡ some (n, t1)
    → record_infringements urls now' run' user provider policy' matches t1 ≡ some (n', t2)
    → (n' ≡ n) × (sizes t2 ≡ sizes t1)
rescan_adds_nothing urls user provider matches now run now' run' n n' policy policy' t t1 t2 e f =
    let (c, first) = record_cases urls now run user provider policy matches n t t1 e in
    let (c', second) = record_cases urls now' run' user provider policy' matches n' t1 t2 f in
    let all =
      write_keys-Written urls now run user provider policy (fan_out urls matches) t t1 first in
    (
      sym c' ∙ c,
      write_keys_add_nothing urls now' run' user provider policy' (fan_out urls matches) t1 t2 all
          second,
    )
