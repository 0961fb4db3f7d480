-- ===== src/Search/Store/Hits/Rows.antt =====
-- The rows of infringements and attestations under one key's writes.
use silver_invention.Prelude.{
  ℕ, ◌≡◌, ◌≢◌, refl, sym, ap, ◌∙◌, subst, Option, none, some, true, false, List, [], ◌∷◌, ◌==◌,
  arith, Bool-cases, inl, inr, ◌⊎◌,
}
use mathlib.Core.Option.{some-injective, none-ne-some}
use silver_invention.Prelude.Dict.{Dict, lookup, update, lookup-update, map_option}
use silver_invention.Search.Store.{Infringement, Attestation}
use silver_invention.Search.Store.Hits.{
  find_hit, is_hit, merge, same_key, confirm, shaped, behind, bands_of,
}

-- The rows of `d'` have the users and hashes of the rows of `d`, under the same ids.
abbrev pub SameKeys : Dict Infringement → Dict Infringement → Type 0
SameKeys d d' =
    (i : ℕ) (r' : Infringement)
    → lookup i d' ≡ some r'
    → (r : Infringement) × (lookup i d ≡ some r)
      × (r.user_ref ≡ r'.user_ref)
      × (r.url_hash ≡ r'.url_hash)

-- A change that keeps the key of a row.
abbrev pub KeepsKey : (Infringement → Infringement) → Type 0
KeepsKey f = (r : Infringement) → ((f r).user_ref ≡ r.user_ref) × ((f r).url_hash ≡ r.url_hash)

pub map_option_inv :
    (f : Infringement → Infringement) (o : Option Infringement) (r' : Infringement)
    → map_option f o ≡ some r'
    → (r : Infringement) × (o ≡ some r) × (f r ≡ r')
map_option_inv f none r' e = absurd (none-ne-some r' e)
map_option_inv f (some r) r' e = (r, refl, some-injective (f r) r' e)

pub update-SameKeys :
    (id : ℕ) (f : Infringement → Infringement) (d : Dict Infringement)
    → KeepsKey f
    → SameKeys d (update id f d)
update-SameKeys id f d keeps i r' e = elim (Bool-cases (id == i)) [
  | inl same ↦
      let e1 : map_option f (lookup i d) ≡ some r' = rw (lookup-update id i f d, same) at e in
      let (r, found, q) = map_option_inv f (lookup i d) r' e1 in
      (r, found, sym (keeps r).0 ∙ ap (λ x. x.user_ref) q, sym (keeps r).1 ∙ ap (λ x. x.url_hash) q)
  | inr different ↦ (r', rw (lookup-update id i f d, different) at e, refl, refl)
]

pub lookup-update_other :
    (id i : ℕ) (f : Infringement → Infringement) (d : Dict Infringement)
    → id ≢ i
    → lookup i (update id f d) ≡ lookup i d
lookup-update_other id i f d ne = lookup-update id i f d ∙ ground arith

-- A page that is not found has no row.
pub find_hit-none :
    (user hash : ℕ) (d : Dict Infringement) (i : ℕ) (r : Infringement)
    → find_hit user hash d ≡ none
    → lookup i d ≡ some r
    → is_hit user hash r ≡ false
find_hit-none user hash [] i r e h = absurd (none-ne-some r h)
find_hit-none user hash ((j, q) ∷ d) i r e h = elim (Bool-cases (is_hit user hash q)) [
  | inl hit ↦ absurd (none-ne-some j (sym (rw hit at e)))
  | inr miss ↦
      let rest : find_hit user hash d ≡ none = rw miss at e in
      elim (Bool-cases (j == i)) [
        | inl same ↦
            let q_is_r : q ≡ r = some-injective q r (rw same at h) in
            subst (λ x. is_hit user hash x ≡ false) q_is_r miss
        | inr different ↦ find_hit-none user hash d i r rest (rw different at h)
      ]
]

abbrev pub Bands : Attestation → List Attestation → List Attestation → Type 0
Bands new rows rows' =
    ((i : ℕ) → new.infringement_id ≢ i → bands_of i rows' ≡ bands_of i rows)
    × (bands_of new.infringement_id rows' ≢ [])

-- What `merge` does with a row that is there.
abbrev pub Merged : Attestation → Attestation → List Attestation → List Attestation → Type 0
Merged new old rows rows' =
    ((same_key new old ≡ true) × (rows' ≡ confirm new old ∷ rows))
    ⊎ ((rest : List Attestation) × (same_key new old ≡ false)
        × (merge new rows ≡ some rest)
        × (rows' ≡ old ∷ rest))

behind_inv :
    (a : Attestation) (o : Option (List Attestation)) (rows' : List Attestation)
    → behind a o ≡ some rows'
    → (rest : List Attestation) × (o ≡ some rest) × (rows' ≡ a ∷ rest)
behind_inv a none rows' e = absurd (none-ne-some rows' e)
behind_inv a (some rest) rows' e = (rest, refl, sym (some-injective (a ∷ rest) rows' e))

pub merge-Merged :
    (new old : Attestation) (rows rows' : List Attestation)
    → merge new (old ∷ rows) ≡ some rows'
    → Merged new old rows rows'
unfolding merge
merge-Merged new old rows rows' e = elim (Bool-cases (same_key new old)) [
  | inl same ↦ elim (Bool-cases (shaped (confirm new old))) [
    | inl fits ↦
        inl (same, sym (some-injective (confirm new old ∷ rows) rows' (rw (same, fits) at e)))
    | inr broken ↦ absurd (none-ne-some rows' (rw (same, broken) at e))
  ]
  | inr other ↦
      let (rest, m, q) = behind_inv old (merge new rows) rows' (rw other at e) in
      inr (rest, other, m, q)
]

bands_of_head :
    (a : Attestation) (rows : List Attestation) → bands_of a.infringement_id (a ∷ rows) ≢ []
bands_of_head a rows e = ground arith

bands_of_behind :
    (i : ℕ) (a : Attestation) (rows : List Attestation)
    → bands_of i rows ≢ []
    → bands_of i (a ∷ rows) ≢ []
bands_of_behind i a rows ne e = ground arith

bands_of_cong :
    (i : ℕ) (a : Attestation) (rows rows' : List Attestation)
    → bands_of i rows' ≡ bands_of i rows
    → bands_of i (a ∷ rows') ≡ bands_of i (a ∷ rows)
bands_of_cong i a rows rows' e = ground arith

confirmed-Bands :
    (new old : Attestation) (rows : List Attestation)
    → same_key new old ≡ true
    → Bands new (old ∷ rows) (confirm new old ∷ rows)
confirmed-Bands new old rows same = ((λ i ne. ground arith), bands_of_head (confirm new old) rows)

-- The bands of the other infringements stay, and the attested one has some.
pub merge-Bands :
    (new : Attestation) (rows rows' : List Attestation)
    → merge new rows ≡ some rows'
    → Bands new rows rows'
unfolding merge
merge-Bands new [] rows' e =
    subst (λ r. Bands new [] r) (some-injective (new ∷ []) rows' e)
      ((λ i ne. ground arith), bands_of_head new [])
merge-Bands new (old ∷ rows) rows' e = elim (merge-Merged new old rows rows' e) [
  | inl (same, q) ↦
      subst (λ r. Bands new (old ∷ rows) r) (sym q) (confirmed-Bands new old rows same)
  | inr (rest, other, m, q) ↦
      let (outside, own) = merge-Bands new rows rest m in
      subst (λ r. Bands new (old ∷ rows) r) (sym q)
        (
          (λ i ne. bands_of_cong i old rows rest (outside i ne)),
          bands_of_behind new.infringement_id old rest own,
        )
]
