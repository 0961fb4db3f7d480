-- ===== src/Search/Store/Hits/Invariant.antt =====
-- What every infringement and attestation satisfies after a write.
use silver_invention.Search.Store.Hits.Rows.{
  SameKeys, find_hit-none, lookup-update_other, update-SameKeys, merge-Bands, map_option_inv, Bands,
}
use silver_invention.Search.Store.Hits.{
  merge, bands_of, upsert_attestation, Urls, ProviderDescriptor, write_key, InfringementKey,
  find_hit, new_hit, new_attestation, upsert_at, rolled, touch, after_upsert, record_infringements,
  set_band, put_url, upsert_infringement, write_keys, ProviderMatch, fan_out, is_hit,
  when_accepted-some,
}
use silver_invention.Prelude.{
  ℕ, ◌+◌, ◌<◌, ◌≡◌, ◌≢◌, refl, sym, ap, ◌∙◌, subst, Option, none, some, false, List, [], ◌∷◌, ◌==◌,
  arith, Bool-cases, Option-cases, inl, inr, length,
}
use mathlib.Core.Option.{some-injective, none-ne-some}
use silver_invention.Prelude.Dict.{Dict, lookup, update, lookup-update, map_option}
use silver_invention.Calibration.Bands.{roll_up, PolicyEntry}
use silver_invention.Search.Store.{Tables, Infringement, Attestation}
use silver_invention.Search.Store.Hits.Keys.{Keyed, merge-Keyed, upsert_inv}

-- The stored band is the roll-up of the attestations, and there are some.
abbrev pub Agrees : ℕ → Infringement → List Attestation → Type 0
Agrees id row rows =
    (row.band ≡ (roll_up (bands_of id rows)).0)
    × (row.band_reason ≡ some (roll_up (bands_of id rows)).1)
    × (bands_of id rows ≢ [])

pub record HitsInv (t : Tables) : Type 0 where
  pub agrees :
      (id : ℕ) (row : Infringement)
      → lookup id t.infringements ≡ some row
      → Agrees id row t.attestations
  pub one_hit :
      (i j : ℕ) (r q : Infringement)
      → lookup i t.infringements ≡ some r
      → lookup j t.infringements ≡ some q
      → r.user_ref ≡ q.user_ref
      → r.url_hash ≡ q.url_hash
      → i ≡ j
  pub known_ids : (i : ℕ) (r : Infringement) → lookup i t.infringements ≡ some r → i < t.next_id
  pub one_attestation : Keyed t.attestations

-- The tables after the row of a user's page is there, with the row's id.
record Upserted (t t' : Tables) (id : ℕ) : Type 0 where
  others : (i : ℕ) → id ≢ i → lookup i t'.infringements ≡ lookup i t.infringements
  same_attestations : t'.attestations ≡ t.attestations
  one_hit :
      (i j : ℕ) (r q : Infringement)
      → lookup i t'.infringements ≡ some r
      → lookup j t'.infringements ≡ some q
      → r.user_ref ≡ q.user_ref
      → r.url_hash ≡ q.url_hash
      → i ≡ j
  known_ids : (i : ℕ) (r : Infringement) → lookup i t'.infringements ≡ some r → i < t'.next_id

-- What keeps the keys keeps the two facts on keys.
pub one_hit-SameKeys :
    (d d' : Dict Infringement)
    → SameKeys d d'
    → ((i j : ℕ) (r q : Infringement)
        → lookup i d ≡ some r
        → lookup j d ≡ some q
        → r.user_ref ≡ q.user_ref
        → r.url_hash ≡ q.url_hash
        → i ≡ j)
    → (i j : ℕ) (r q : Infringement) → lookup i d' ≡ some r
    → lookup j d' ≡ some q
    → r.user_ref ≡ q.user_ref
    → r.url_hash ≡ q.url_hash
    → i ≡ j
one_hit-SameKeys d d' keys one i j r q ei ej u h =
    let (r0, fi, ru, rh) = keys i r ei in
    let (q0, fj, qu, qh) = keys j q ej in
    one i j r0 q0 fi fj (ru ∙ (u ∙ sym qu)) (rh ∙ (h ∙ sym qh))

hit_clash :
    (user hash : ℕ) (q : Infringement)
    → user ≡ q.user_ref
    → hash ≡ q.url_hash
    → is_hit user hash q ≡ false
    → ⊥
hit_clash user hash q u h miss = ground arith

new_id :
    (i n : ℕ) (d : Dict Infringement) (new r : Infringement)
    → ((i : ℕ) (r : Infringement) → lookup i d ≡ some r → i < n)
    → lookup i ((n, new) ∷ d) ≡ some r
    → i < n + 1
new_id i n d new r below e = elim (Bool-cases (n == i)) [
  | inl same ↦ ground arith
  | inr different ↦ let h = below i r (rw different at e) in omega arith
]

module _ (urls : Urls) (now run user : ℕ) (provider : ProviderDescriptor)
    (policy : Dict PolicyEntry) where
  abbrev hit : InfringementKey → Infringement
  hit key = new_hit urls now run user provider policy key

  new_one_hit :
      (key : InfringementKey) (t : Tables)
      → find_hit user key.url_hash t.infringements ≡ none
      → HitsInv t
      → (i j : ℕ) (r q : Infringement) → lookup i ((t.next_id, hit key) ∷ t.infringements) ≡ some r
      → lookup j ((t.next_id, hit key) ∷ t.infringements) ≡ some q
      → r.user_ref ≡ q.user_ref
      → r.url_hash ≡ q.url_hash
      → i ≡ j
  new_one_hit key t e h i j r q ei ej u x = elim (Bool-cases (t.next_id == i)) [
    | inl ti ↦ elim (Bool-cases (t.next_id == j)) [
      | inl tj ↦ ground arith
      | inr fj ↦
          let own : hit key ≡ r = some-injective (hit key) r (rw ti at ei) in
          let miss = find_hit-none user key.url_hash t.infringements j q e (rw fj at ej) in
          absurd (
            hit_clash user key.url_hash q (ap (λ y. y.user_ref) own ∙ u)
              (ap (λ y. y.url_hash) own ∙ x) miss)
    ]
    | inr fi ↦ elim (Bool-cases (t.next_id == j)) [
      | inl tj ↦
          let own : hit key ≡ q = some-injective (hit key) q (rw tj at ej) in
          let miss = find_hit-none user key.url_hash t.infringements i r e (rw fi at ei) in
          absurd (
            hit_clash user key.url_hash r (ap (λ y. y.user_ref) own ∙ sym u)
              (ap (λ y. y.url_hash) own ∙ sym x) miss)
      | inr fj ↦ h.one_hit i j r q (rw fi at ei) (rw fj at ej) u x
    ]
  ]

  Upserted-at :
      (key : InfringementKey) (t : Tables) (found : Option ℕ)
      → find_hit user key.url_hash t.infringements ≡ found
      → HitsInv t
      → let out = upsert_at urls now run user provider policy key found t in Upserted t out.1 out.0
  Upserted-at key t none e h = record {
    others = λ i ne. ground arith;
    same_attestations = refl;
    one_hit = new_one_hit key t e h;
    known_ids = λ i r q. new_id i t.next_id t.infringements (hit key) r h.known_ids q;
  }
  Upserted-at key t (some id) e h = record {
    others = λ i ne. lookup-update_other id i (touch now) t.infringements ne;
    same_attestations = refl;
    one_hit =
        one_hit-SameKeys t.infringements (update id (touch now) t.infringements)
          (update-SameKeys id (touch now) t.infringements (λ r. (refl, refl))) h.one_hit;
    known_ids = λ i r q.
        let (r0, f, _, _) =
          update-SameKeys id (touch now) t.infringements (λ r. (refl, refl)) i r q in
        h.known_ids i r0 f;
  }

  rolled-Agrees :
      (key : InfringementKey) (t t' : Tables) (id : ℕ) (rows : List Attestation)
      → HitsInv t
      → Upserted t t' id
      → Bands (new_attestation urls now run user provider policy id key) t.attestations rows
      → (i : ℕ) (row : Infringement)
      → lookup i (update id (set_band (roll_up (bands_of id rows))) t'.infringements) ≡ some row
      → Agrees i row rows
  rolled-Agrees key t t' id rows h up (outside, own) i row e = elim (Bool-cases (id == i)) [
    | inl same ↦
        let f = set_band (roll_up (bands_of id rows)) in
        let e1 : map_option f (lookup i t'.infringements) ≡ some row =
          rw (lookup-update id i f t'.infringements, same) at e in
        let (r, _, q) = map_option_inv f (lookup i t'.infringements) row e1 in
        let id_is_i : id ≡ i = ground arith in
        subst (λ j. Agrees j row rows) id_is_i (subst (λ y. Agrees id y rows) q (refl, refl, own))
    | inr different ↦
        let ne : id ≢ i = λ p. ground arith in
        let e1 =
          sym (lookup-update_other id i (set_band (roll_up (bands_of id rows))) t'.infringements ne)
          ∙ e in
        let e2 = sym (up.others i ne) ∙ e1 in
        subst
          (λ bs. (row.band ≡ (roll_up bs).0) × (row.band_reason ≡ some (roll_up bs).1) × (bs ≢ []))
          (sym (outside i ne)) (h.agrees i row e2)
  ]

  rolled-HitsInv :
      (key : InfringementKey) (t t' : Tables) (id : ℕ) (rows : List Attestation)
      → HitsInv t
      → Upserted t t' id
      → merge (new_attestation urls now run user provider policy id key) t.attestations ≡ some rows
      → HitsInv (rolled urls now run user provider policy id rows t')
  rolled-HitsInv key t t' id rows h up e =
      let new = new_attestation urls now run user provider policy id key in
      let f = set_band (roll_up (bands_of id rows)) in
      let keys = update-SameKeys id f t'.infringements (λ r. (refl, refl)) in
      record {
        agrees = rolled-Agrees key t t' id rows h up (merge-Bands new t.attestations rows e);
        one_hit = one_hit-SameKeys t'.infringements (update id f t'.infringements) keys up.one_hit;
        known_ids = λ i r q. let (r0, found, _, _) = keys i r q in up.known_ids i r0 found;
        one_attestation = merge-Keyed new t.attestations rows e h.one_attestation;
      }

  put_url-HitsInv :
      (key : InfringementKey) (t : Tables)
      → HitsInv t
      → HitsInv (put_url urls now run user provider policy key t)
  put_url-HitsInv key t h = record {
    agrees = h.agrees;
    one_hit = h.one_hit;
    known_ids = h.known_ids;
    one_attestation = h.one_attestation;
  }

  after-HitsInv :
      (key : InfringementKey) (t t1 t' : Tables) (id : ℕ)
      → HitsInv t
      → Upserted t t1 id
      → after_upsert urls now run user provider policy (id, t1) key ≡ some t'
      → HitsInv t'
  after-HitsInv key t t1 t' id h up e =
      let new = new_attestation urls now run user provider policy id key in
      elim (Option-cases (upsert_attestation new t1.attestations)) [
        | inl broken ↦ absurd (none-ne-some t' (rw (broken, after_upsert) at e))
        | inr (rows, q) ↦
            let q1 =
              subst (λ a. merge new a ≡ some rows) up.same_attestations
                (upsert_inv new t1.attestations rows q) in
            subst (λ x. HitsInv x)
              (some-injective (rolled urls now run user provider policy id rows t1) t'
                (rw (q, after_upsert) at e))
              (rolled-HitsInv key t t1 id rows h up q1)
      ]

  pub write_key-HitsInv :
      (key : InfringementKey) (t t' : Tables)
      → HitsInv t
      → write_key urls now run user provider policy key t ≡ some t'
      → HitsInv t'
  unfolding write_key upsert_infringement
  write_key-HitsInv key t t' h e =
      let t0 = put_url urls now run user provider policy key t in
      let h0 = put_url-HitsInv key t h in
      let found = find_hit user key.url_hash t0.infringements in
      let out = upsert_at urls now run user provider policy key found t0 in
      after-HitsInv key t0 out.1 t' out.0 h0 (Upserted-at key t0 found refl h0)
        (when_accepted-some _ _ t' e)

  pub write_keys-HitsInv :
      (keys : List InfringementKey) (t t' : Tables)
      → HitsInv t
      → write_keys urls now run user provider policy keys t ≡ some t'
      → HitsInv t'
  unfolding write_keys
  write_keys-HitsInv [] t t' h e = subst (λ x. HitsInv x) (some-injective t t' e) h
  write_keys-HitsInv (key ∷ keys) t t' h e =
      elim (Option-cases (write_key urls now run user provider policy key t)) [
        | inl broken ↦ absurd (none-ne-some t' (rw (broken, write_keys) at e))
        | inr (t1, q) ↦
            write_keys-HitsInv keys t1 t' (write_key-HitsInv key t t1 h q) (rw (q, write_keys) at e)
      ]

  pub record_infringements-HitsInv :
      (matches : List ProviderMatch) (n : ℕ) (t t' : Tables)
      → HitsInv t
      → record_infringements urls now run user provider policy matches t ≡ some (n, t')
      → HitsInv t'
  unfolding record_infringements
  record_infringements-HitsInv matches n t t' h e =
      elim (Option-cases (write_keys urls now run user provider policy (fan_out urls matches) t)) [
        | inl broken ↦ absurd (none-ne-some (n, t') (rw broken at e))
        | inr (t1, q) ↦
            let same = some-injective (length (fan_out urls matches), t1) (n, t') (rw q at e) in
            subst (λ x. HitsInv x) (ap (λ y. y.1) same)
              (write_keys-HitsInv (fan_out urls matches) t t1 h q)
      ]
